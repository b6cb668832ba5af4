-- ===== src/Api/Passing.antt =====
-- Whom the guards of src/common/guards let pass on the routes of src/**/*.controller.ts.
use intaektok_be.Prelude.{
  ℕ, Bool, true, false, not, ◌&&◌, Option, none, some, List, [], ◌∷◌, Ident, Text, ◌==◌, find,
  if◌then◌else◌, ◌≡◌, ◌⊎◌, refl, ◌∙◌, inl, inr, arith, Bool-cases, Option-cases,
}
use intaektok_be.Prisma.{Profile, RoomMember}
use intaektok_be.Common.Errors.{Error, app, unauthorized, forbidden, validation}
use intaektok_be.World.{World, Result, ok, err}
use intaektok_be.Messages.Checks.{find_member, is_absent}
use intaektok_be.Auth.Jwt.{Jwt, TokenPayload, is_access}
use intaektok_be.Auth.Session.{find_user, is_inactive}
use intaektok_be.Auth.Login.{onboarded}
use intaektok_be.Auth.Guards.{
  validate_token, authenticate, is_admin_identity, kakao_of, admin_guard, onboarded_guard,
  room_member_guard,
}
use intaektok_be.Api.{Server, Access, authenticate_bearer}
use intaektok_be.Api.Routes.{Request, access_of, room_of}

-- The user of a usable access token: one whose account is active.
abbrev pub subject : Option TokenPayload → World → Option Ident
subject none w = none
subject (some p) w =
    if is_access p.kind && not (is_inactive (find_user p.sub w)) then some p.sub else none

abbrev pub caller_of : Jwt → Option Text → World → Option Ident
caller_of jwt none w = none
caller_of jwt (some t) w = subject (jwt.verify_access t) w

abbrev pub has_profile : Ident → World → Bool
has_profile u w = not (u == 0) && onboarded (find (λ (p : Profile). p.user_id == u) w.profiles)

abbrev pub is_member : Ident → Ident → World → Bool
is_member room u w = not (room == 0) && not (is_absent (find_member room u w))

abbrev pub is_admin : List Ident → Ident → World → Bool
is_admin admins u w = is_admin_identity admins u (kakao_of (find_user u w))

-- Whom a route is for.
abbrev pub grants : Server → Access → Ident → Option Ident → World → Bool
grants s Access.public room _ w = true
grants s _ room none w = false
grants s Access.signed_in room (some u) w = true
grants s Access.ready room (some u) w = has_profile u w
grants s Access.member room (some u) w = has_profile u w && is_member room u w
grants s Access.console room (some u) w = is_admin s.admins u w

abbrev pub may_call : Server → Option Text → Request → World → Bool
may_call s token req w = grants s (access_of req) (room_of req) (caller_of s.jwt token w) w

pub auth_ok :
    (jwt : Jwt) (token : Option Text) (u : Ident) (w : World)
    → caller_of jwt token w ≡ some u
    → authenticate_bearer jwt token w ≡ (ok u, w)
unfolding authenticate_bearer authenticate validate_token
auth_ok jwt none u w h = cc
auth_ok jwt (some t) u w h = elim (Option-cases (jwt.verify_access t)) [
  | inl e ↦ ground (arith, e, h)
  | inr (p, e) ↦ ground (arith, e, h)
]

pub auth-none :
    (jwt : Jwt) (token : Option Text) (w : World)
    → caller_of jwt token w ≡ none
    → authenticate_bearer jwt token w ≡ (err (unauthorized "유효하지 않거나 만료된 토큰입니다."), w)
unfolding authenticate_bearer authenticate validate_token
auth-none jwt none w h = refl
auth-none jwt (some t) w h = elim (Option-cases (jwt.verify_access t)) [
  | inl e ↦ ground (arith, e)
  | inr (p, e) ↦ elim (Bool-cases (is_access p.kind)) [
    | inl a ↦ elim (Bool-cases (is_inactive (find_user p.sub w))) [
      | inl b ↦ ground (arith, e, a, b)
      | inr b ↦ ground (arith, e, a, b, h)
    ]
    | inr a ↦ ground (arith, e, a)
  ]
]

-- The status of an application error, 500 for any other.
abbrev pub status_of : Error → ℕ
status_of (app e) = e.status
status_of _ = 500

-- It throws an application error of one of three statuses and changes nothing.
abbrev pub Refuses : {A : Type 0} → Result A × World → World → Type 0
Refuses r w =
    (e : Error) × (r ≡ (err e, w))
    × ((status_of e ≡ 401) ⊎ (status_of e ≡ 403) ⊎ (status_of e ≡ 400))

module _ (u : Ident) (w : World) where
  pub onboarded-ok : has_profile u w ≡ true → onboarded_guard u w ≡ (ok true, w)
  unfolding onboarded_guard
  onboarded-ok h = elim (Bool-cases (u == 0)) [
    | inl n ↦ ground (arith, n, h)
    | inr n ↦ ground (arith, n, h)
  ]

  onboarded-refused :
      has_profile u w ≡ false
      → onboarded_guard u w
        ≡ (err (if u == 0 then unauthorized "인증이 필요합니다." else forbidden "프로필 온보딩이 필요합니다."), w)
  unfolding onboarded_guard
  onboarded-refused h = elim (Bool-cases (u == 0)) [
    | inl n ↦ ground (arith, n)
    | inr n ↦ ground (arith, n, h)
  ]

  pub onboarded-Refuses : has_profile u w ≡ false → Refuses (onboarded_guard u w) w
  unfolding unauthorized forbidden
  onboarded-Refuses h = elim (Bool-cases (u == 0)) [
    | inl n ↦ (unauthorized "인증이 필요합니다.", onboarded-refused h ∙ rw n refl, inl refl)
    | inr n ↦ (forbidden "프로필 온보딩이 필요합니다.", onboarded-refused h ∙ rw n refl, inr (inl refl))
  ]

  pub admin-ok :
      (admins : List Ident) → is_admin admins u w ≡ true → admin_guard admins u w ≡ (ok true, w)
  unfolding admin_guard is_admin_identity
  admin-ok [] h = ground (arith, h)
  admin-ok (a ∷ as') h = elim (Bool-cases (u == 0)) [
    | inl n ↦ ground (arith, n, h)
    | inr n ↦ ground (arith, n, h)
  ]

  admin-refused :
      (admins : List Ident)
      → is_admin admins u w ≡ false
      → admin_guard admins u w ≡ (err (forbidden "관리자 권한이 필요합니다."), w)
  unfolding admin_guard is_admin_identity
  admin-refused [] h = ground arith
  admin-refused (a ∷ as') h = elim (Bool-cases (u == 0)) [
    | inl n ↦ ground (arith, n)
    | inr n ↦ ground (arith, n, h)
  ]

  pub admin-Refuses :
      (admins : List Ident) → is_admin admins u w ≡ false → Refuses (admin_guard admins u w) w
  unfolding forbidden
  admin-Refuses admins h = (forbidden "관리자 권한이 필요합니다.", admin-refused admins h, inr (inl refl))

module _ (room u : Ident) (w : World) where
  pub member-ok :
      (u == 0) ≡ false
      → is_member room u w ≡ true
      → (m : RoomMember) × (find_member room u w ≡ some m)
        × (room_member_guard room u w
            ≡ (ok (record { room_id = room; user_id = u; role = m.role }), w))
  unfolding room_member_guard
  member-ok n h = elim (Option-cases (find_member room u w)) [
    | inl e ↦ ground (arith, e, h)
    | inr (m, e) ↦ (m, e, ground (arith, n, e, h))
  ]

  pub member-Refuses :
      (u == 0) ≡ false → is_member room u w ≡ false → Refuses (room_member_guard room u w) w
  unfolding room_member_guard forbidden validation
  member-Refuses n h = elim (Bool-cases (room == 0)) [
    | inl r ↦ (validation "roomId가 필요합니다.", ground (arith, n, r), inr (inr refl))
    | inr r ↦ elim (Option-cases (find_member room u w)) [
      | inl e ↦ (forbidden "해당 채팅방에 접근할 권한이 없습니다.", ground (arith, n, r, e), inr (inl refl))
      | inr (m, e) ↦ (forbidden "해당 채팅방에 접근할 권한이 없습니다.", ground (arith, n, r, e, h), inr (inl refl))
    ]
  ]
