-- ===== src/Profile/Onboarding.antt =====
-- On `create` of src/profile/profile.service.ts and the guard of onboarded users.
use intaektok_be.Prelude.{
  true, false, Option, some, List, [], ◌∷◌, Ident, ◌==◌, find, update_where, is_some, ◌≡◌, refl, ap,
  ◌∙◌, sym, inl, inr, arith, Bool-cases, ==_refl,
}
use intaektok_be.Prisma.{Profile}
use intaektok_be.Common.Errors.{conflict}
use intaektok_be.World.{World, ok, err}
use intaektok_be.Env.{Env}
use intaektok_be.Media.{assert_owned_media, assert_owned_media_or_null}
use intaektok_be.Auth.Login.{onboarded}
use intaektok_be.Auth.Guards.{onboarded_guard}
use intaektok_be.Profile.{
  CreateProfileDto, ProfileView, create, find_own, is_of, onboarding, onboard,
}

find-replaced :
    (user : Ident) (p : Profile) (ps : List Profile)
    → (p.user_id == user) ≡ true
    → is_some (find (is_of user) ps) ≡ true
    → find (is_of user) (update_where (is_of user) (λ _. p) ps) ≡ some p
find-replaced user p [] e h = cc
find-replaced user p (x ∷ xs) e h = elim (Bool-cases (is_of user x)) [
  | inl t ↦ ground (arith, t, e)
  | inr t ↦ ground (arith, t, find-replaced user p xs e (ground (arith, t, h)))
]

-- The row that onboarding writes.
find_own-onboard :
    (user : Ident) (dto : CreateProfileDto) (w : World)
    → find_own user (onboard user dto w) ≡ some (onboarding user dto w.now)
find_own-onboard user dto w = elim (Bool-cases (is_some (find_own user w))) [
  | inl e ↦ rw e (find-replaced user (onboarding user dto w.now) w.profiles (==_refl user) e)
  | inr e ↦ rw (e, ==_refl user) refl
]

assert_owned_media_or_null_keeps :
    (i : Option Ident) (user : Ident) (w : World) → (assert_owned_media_or_null i user w).1 ≡ w
unfolding assert_owned_media_or_null assert_owned_media
assert_owned_media_or_null_keeps i user w = ground arith

module _ (env : Env) (user : Ident) (w : World) where
  create_again :
      (dto : CreateProfileDto)
      → onboarded (find_own user w) ≡ true
      → create env user dto w ≡ (err (conflict "이미 온보딩이 완료된 사용자입니다."), w)
  unfolding create
  create_again dto e = rw e refl

  guard_passes :
      (p : Profile)
      → find_own user w ≡ some p
      → is_some p.onboarded_at ≡ true
      → (user == 0) ≡ false
      → onboarded_guard user w ≡ (ok true, w)
  unfolding onboarded_guard
  guard_passes p e o n = ground (arith, n, e, o)

  -- A creation that is not refused has checked its picture and written the row.
  create_writes :
      (dto : CreateProfileDto) (v : ProfileView)
      → (create env user dto w).0 ≡ ok v
      → ((create env user dto w).1 ≡ onboard user dto w) × (v.profile ≡ onboarding user dto w.now)
  unfolding create assert_owned_media_or_null assert_owned_media
  create_writes dto v h = ground (arith, h)

-- A creation of a profile that succeeds completes the onboarding: the guard of the feature endpoints
-- lets the user pass, and every further creation is a conflict that changes nothing.
pub create_onboards :
    (env : Env) (user : Ident) (dto : CreateProfileDto) (v : ProfileView) (w : World)
    → (user == 0) ≡ false
    → (create env user dto w).0 ≡ ok v
    → (find_own user (create env user dto w).1 ≡ some v.profile)
      × (onboarded_guard user (create env user dto w).1 ≡ (ok true, (create env user dto w).1))
      × ((again : CreateProfileDto)
          → create env user again (create env user dto w).1
            ≡ (err (conflict "이미 온보딩이 완료된 사용자입니다."), (create env user dto w).1))
create_onboards env user dto v w n h =
    let (e, q) = create_writes env user w dto v h in
    let f = find_own-onboard user dto w in
    rw e (
      f ∙ ap some (sym q),
      guard_passes env user (onboard user dto w) (onboarding user dto w.now) f refl n,
      λ again. create_again env user (onboard user dto w) again (rw f refl),
    )
