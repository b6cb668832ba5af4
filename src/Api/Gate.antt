-- ===== src/Api/Gate.antt =====
-- On the guards of src/common/guards over the routes of src/**/*.controller.ts: whose requests reach a
-- handler.
use intaektok_be.Prelude.{
  true, false, Option, none, some, Ident, Text, is_some, ◌≡◌, ◌⊎◌, refl, inl, inr, arith,
  Bool-cases, Option-cases,
}
use intaektok_be.Prisma.{RoomMember}
use intaektok_be.Common.Errors.{Error, unauthorized}
use intaektok_be.World.{World, Result, ok, err}
use intaektok_be.World.Keeps.{bind_ok, bind_err}
use intaektok_be.Messages.Checks.{find_member}
use intaektok_be.Auth.Guards.{ActiveMembership}
use intaektok_be.Api.{Server, Access, guards, Caller, nobody, can_activate, run_guards}
use intaektok_be.Api.Routes.{Request, access_of, room_of, handle, serve}
use intaektok_be.Api.Passing.{
  caller_of, has_profile, grants, may_call, status_of, Refuses, auth_ok, auth-none, onboarded-ok,
  onboarded-Refuses, admin-ok, admin-Refuses, member-ok, member-Refuses,
}

abbrev seat : Ident → Ident → Option RoomMember → Option ActiveMembership
seat room u none = none
seat room u (some m) = some (record { room_id = room; user_id = u; role = m.role })

-- What a handler is given: the user of the token, and on the routes of a room the user's membership.
abbrev expected : Access → Ident → Option Ident → World → Caller
expected _ room none w = nobody
expected Access.public room (some u) w = nobody
expected Access.member room (some u) w = record {
  user_id = u;
  room_member = seat room u (find_member room u w);
}
expected _ room (some u) w = record { user_id = u; room_member = none }

abbrev pub caller_at : Server → Option Text → Request → World → Caller
caller_at s token req w = expected (access_of req) (room_of req) (caller_of s.jwt token w) w

module _ (s : Server) (token : Option Text) (room u : Ident) (w : World)
    (known : caller_of s.jwt token w ≡ some u) where
  run-ok :
      (a : Access)
      → grants s a room (some u) w ≡ true
      → run_guards s token room (guards a) nobody w ≡ (ok (expected a room (some u) w), w)
  unfolding run_guards can_activate guards
  run-ok Access.public h = refl
  run-ok Access.signed_in h = ground (arith, auth_ok s.jwt token u w known)
  run-ok Access.ready h = ground (arith, auth_ok s.jwt token u w known, onboarded-ok u w h)
  run-ok Access.console h = ground (arith, auth_ok s.jwt token u w known, admin-ok u w s.admins h)
  run-ok Access.member h = elim (Bool-cases (has_profile u w)) [
    | inl p ↦
        let (m, f, e) = member-ok room u w (ground (arith, p)) (ground (arith, p, h)) in
        ground (arith, auth_ok s.jwt token u w known, onboarded-ok u w p, e, f)
    | inr p ↦ ground (arith, p, h)
  ]

  run-Refuses :
      (a : Access)
      → grants s a room (some u) w ≡ false
      → Refuses (run_guards s token room (guards a) nobody w) w
  unfolding run_guards can_activate guards
  run-Refuses Access.public h = absurd (ground (arith, h))
  run-Refuses Access.signed_in h = absurd (ground (arith, h))
  run-Refuses Access.ready h =
      let (e, q, d) = onboarded-Refuses u w h in
      (e, ground (arith, auth_ok s.jwt token u w known, q), d)
  run-Refuses Access.console h =
      let (e, q, d) = admin-Refuses u w s.admins h in
      (e, ground (arith, auth_ok s.jwt token u w known, q), d)
  run-Refuses Access.member h = elim (Bool-cases (has_profile u w)) [
    | inl p ↦
        let (e, q, d) = member-Refuses room u w (ground (arith, p)) (ground (arith, p, h)) in
        (e, ground (arith, auth_ok s.jwt token u w known, onboarded-ok u w p, q), d)
    | inr p ↦
        let (e, q, d) = onboarded-Refuses u w p in
        (e, ground (arith, auth_ok s.jwt token u w known, q), d)
  ]

module _ (s : Server) (token : Option Text) (room : Ident) (w : World)
    (unknown : caller_of s.jwt token w ≡ none) where
  run-stranger :
      (a : Access)
      → grants s a room none w ≡ false
      → run_guards s token room (guards a) nobody w ≡ (err (unauthorized "유효하지 않거나 만료된 토큰입니다."), w)
  unfolding run_guards can_activate guards
  run-stranger Access.public h = absurd (ground (arith, h))
  run-stranger Access.signed_in h = ground (arith, auth-none s.jwt token w unknown)
  run-stranger Access.ready h = ground (arith, auth-none s.jwt token w unknown)
  run-stranger Access.console h = ground (arith, auth-none s.jwt token w unknown)
  run-stranger Access.member h = ground (arith, auth-none s.jwt token w unknown)

  run-nobody :
      (a : Access)
      → grants s a room none w ≡ true
      → run_guards s token room (guards a) nobody w ≡ (ok (expected a room none w), w)
  unfolding run_guards guards
  run-nobody Access.public h = refl
  run-nobody Access.signed_in h = absurd (ground (arith, h))
  run-nobody Access.ready h = absurd (ground (arith, h))
  run-nobody Access.console h = absurd (ground (arith, h))
  run-nobody Access.member h = absurd (ground (arith, h))

-- The request fails as the guards fail: without a user with 401, and nothing is changed.
abbrev pub Denied : {A : Type 0} → Option Ident → Result A × World → World → Type 0
Denied caller r w =
    (e : Error) × (r ≡ (err e, w))
    × ((status_of e ≡ 401)
        ⊎ ((is_some caller ≡ true) × ((status_of e ≡ 403) ⊎ (status_of e ≡ 400))))

module _ (s : Server) (token : Option Text) (req : Request) (w : World) where
  abbrev guarded : Result Caller × World
  guarded = run_guards s token (room_of req) (guards (access_of req)) nobody w

  serve-passes : (c : Caller) → guarded ≡ (ok c, w) → serve s token req w ≡ handle s c req w
  unfolding serve
  serve-passes c e =
      bind_ok (run_guards s token (room_of req) (guards (access_of req)) nobody)
        (λ c. handle s c req) w w c e

  serve-stops : (x : Error) → guarded ≡ (err x, w) → serve s token req w ≡ (err x, w)
  unfolding serve
  serve-stops x e =
      bind_err (run_guards s token (room_of req) (guards (access_of req)) nobody)
        (λ c. handle s c req) w w x e

-- A request reaches its handler exactly if its token is a usable access token of an active account
-- whose user is one that the route is for: of any account, onboarded, an active member of the room of
-- the path, or an admin. The handler is given that user, and on the routes of a room the user's role.
-- Any other request fails with 401, or for a known user also with 403 or 400, and changes nothing.
pub serve_gate :
    (s : Server) (token : Option Text) (req : Request) (w : World)
    → (may_call s token req w ≡ true
        → serve s token req w ≡ handle s (caller_at s token req w) req w)
      × (may_call s token req w ≡ false → Denied (caller_of s.jwt token w) (serve s token req w) w)
unfolding unauthorized
serve_gate s token req w = elim (Option-cases (caller_of s.jwt token w)) [
  | inl e ↦ rw e (
    (λ h. serve-passes s token req w _ (run-nobody s token (room_of req) w e (access_of req) h)),
    λ h. (
      unauthorized "유효하지 않거나 만료된 토큰입니다.",
      serve-stops s token req w _ (run-stranger s token (room_of req) w e (access_of req) h),
      inl refl,
    ),
  )
  | inr (u, e) ↦ rw e (
    (λ h. serve-passes s token req w _ (run-ok s token (room_of req) u w e (access_of req) h)),
    λ h.
        let (x, q, d) = run-Refuses s token (room_of req) u w e (access_of req) h in
        (x, serve-stops s token req w x q, elim d [ inl a ↦ inl a | inr b ↦ inr (refl, b) ]),
  )
]
