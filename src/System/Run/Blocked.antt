-- ===== src/System/Run/Blocked.antt =====
-- On blocked entries of the whitelist (src/admin/admin.service.ts) over whole runs, and the doors of
-- src/auth and src/common/guards.
use intaektok_be.Prelude.{
  ◌≡◌, ◌≢◌, inl, inr, refl, sym, ap, ◌∙◌, Bool, true, false, Option, none, some, Ident, Text, ◌==◌,
  opt_eq, In, find-In, find-holds, arith, Bool-cases, Option-cases, ==_refl,
}
use intaektok_be.Prisma.{User, Whitelist, is_blocked}
use intaektok_be.World.{World}
use intaektok_be.Auth.Jwt.{Jwt, TokenPayload, is_refresh}
use intaektok_be.Auth.Kakao.{KakaoUserInfo}
use intaektok_be.Auth.Session.{find_user, is_inactive, refresh_verified, revoke_all_sessions}
use intaektok_be.Auth.Login.{find_whitelist, admit_identity}
use intaektok_be.Auth.Login.Gate.{admit_identity_blocked}
use intaektok_be.Admin.Block.{Refused}
use intaektok_be.Api.{Server, Access}
use intaektok_be.Api.Routes.{Request, auth_refresh, access_of, serve}
use intaektok_be.Api.Gate.{Denied}
use intaektok_be.Api.Blocked.{caller_of-none, stranger-Denied, serve-auth_refresh}
use intaektok_be.System.Accounts.{find-misses}
use intaektok_be.System.Accounts.Sound.{Sound, IsOf}
use intaektok_be.System.Accounts.Laws.{IsDistinct, OthersFit, Sound-Law}
use intaektok_be.System.Run.{Run}
use intaektok_be.System.Run.Kept.{Run-Preserves}

-- Over any run the rows of users and those of the whitelist stay told apart by id and by Kakao id, none
-- has an id that the database has still to give out, and the user of a blocked entry is suspended: if so
-- at the start, if the ids of the database are all different and if other requests keep that.
pub run-Sound :
    (s : Server) (w v : World)
    → IsDistinct s.env
    → OthersFit s.env
    → Sound s.env w
    → Run s w v
    → Sound s.env v
run-Sound s w v d k h r = Run-Preserves s (Sound-Law s.env d k) r h

-- The refresh token of an account that is not active is not exchanged.
inactive-Refused :
    (jwt : Jwt) (p : TokenPayload) (v : World)
    → is_inactive (find_user p.sub v) ≡ true
    → Refused (refresh_verified jwt p v)
unfolding refresh_verified revoke_all_sessions
inactive-Refused jwt p v h = elim (Bool-cases (is_refresh p.kind)) [
  | inl a ↦ elim (Bool-cases (v.refresh p.sub p.jti)) [
    | inl b ↦ rw (a, b, h) (_, refl)
    | inr b ↦ rw (a, b) (_, refl)
  ]
  | inr a ↦ rw a (_, refl)
]

-- The identity of a blocked entry does not log in.
login-Refused :
    (s : Server) (v : World) (x : Whitelist) (info : KakaoUserInfo)
    → Sound s.env v
    → In x v.whitelist
    → x.kakao_id ≡ some info.kakao_id
    → is_blocked x.status ≡ true
    → Refused (admit_identity s.env s.jwt info v)
login-Refused s v x info h i e b = elim (Option-cases (find_whitelist info.kakao_id v)) [
  | inl none_found ↦ absurd (missed (find-misses named x v.whitelist none_found i))
  | inr (y, f) ↦
      let same =
        h.entries.by_kakao y x info.kakao_id (find-In named v.whitelist y f) i
          (kakao y (find-holds named v.whitelist y f)) e in
      rw
        (admit_identity_blocked s.env s.jwt info v y f
          (ap (λ (a : Whitelist). is_blocked a.status) same ∙ b))
        (_, refl)
]
  where
    named : Whitelist → Bool
    named a = opt_eq a.kakao_id (some info.kakao_id)

    missed : named x ≡ false → ⊥
    missed m = ground (arith, m, e, ==_refl info.kakao_id)

    kakao : (y : Whitelist) → named y ≡ true → y.kakao_id ≡ some info.kakao_id
    kakao y n = elim (Option-cases y.kakao_id) [
      | inl a ↦ absurd (ground (arith, a, n))
      | inr (k, a) ↦ ground (arith, a, n)
    ]

-- An account is shut out of the server: its access tokens open no route that wants a user, its refresh
-- tokens are not exchanged, and its Kakao identity cannot log in.
abbrev pub IsShutOut : Server → User → World → Type 0
IsShutOut s u v =
    ((t : Text) (p : TokenPayload)
      → p.sub ≡ u.id
      → s.jwt.verify_access t ≡ some p
      → (req : Request) → access_of req ≢ Access.public
      → Denied none (serve s (some t) req v) v)
    × ((t : Text) (p : TokenPayload)
        → p.sub ≡ u.id
        → s.jwt.verify_refresh t ≡ some p
        → (token : Option Text) → Refused (serve s token (auth_refresh t) v))
    × ((info : KakaoUserInfo)
        → info.kakao_id ≡ u.kakao_id
        → Refused (admit_identity s.env s.jwt info v))

-- In every state that a run of the server reaches, whatever admins, users and other requests have done
-- before and in whatever order, the account of a blocked entry of the whitelist is shut out, if its
-- Kakao id is not empty: its access tokens open no route that wants a user, its refresh tokens are not
-- exchanged, and its Kakao identity cannot log in. The ids of the database must be all different; at the
-- start rows of users and of the whitelist must be told apart by id and by Kakao id, none with an id
-- still to be given out, and the users of blocked entries suspended; other requests must keep that.
pub blocked-IsShutOut :
    (s : Server) (w v : World) (x : Whitelist) (u : User)
    → IsDistinct s.env
    → OthersFit s.env
    → Sound s.env w
    → Run s w v
    → In x v.whitelist
    → find_user u.id v ≡ some u
    → IsOf x u
    → is_blocked x.status ≡ true
    → IsShutOut s u v
blocked-IsShutOut s w v x u d k h r i found of b = (
  (λ t p sub e req n.
      stranger-Denied s t req v
        (caller_of-none s t p u v e (ap (λ a. find_user a v) sub ∙ found) inactive) n),
  (λ t p sub e token.
      serve-auth_refresh s token t p v e (
        inactive-Refused s.jwt p v
          (ap (λ a. is_inactive (find_user a v)) sub ∙ rw found inactive))),
  (λ info same. login-Refused s v x info sound i (of.0 ∙ ap (λ (a : Ident). some a) (sym same)) b),
)
  where
    sound : Sound s.env v
    sound = run-Sound s w v d k h r

    inactive : is_inactive (some u) ≡ true
    inactive =
        rw (sound.agree x u i (find-In (λ (a : User). a.id == u.id) v.users u found) of b) refl
