-- ===== src/Auth/Me.antt =====
-- src/auth/auth.service.ts: `me`, and its agreement with the guards.
use intaektok_be.Prelude.{
  Bool, true, false, Option, none, some, List, [], ◌∷◌, Ident, Text, ◌==◌, if◌then◌else◌, find,
  contains, ◌≡◌, refl, sym, ◌∙◌, ◌↔◌, inl, inr, arith, Bool-cases, Option-cases, find-holds,
}
use intaektok_be.Prisma.{Profile, User}
use intaektok_be.Common.Errors.{forbidden, not_found}
use intaektok_be.World.{World, Result, ok, err, Call, gets, or_throw, ◌>>=◌}
use intaektok_be.Env.{Env}
use intaektok_be.Media.{resolve_avatar_url}
use intaektok_be.Auth.Session.{find_user}
use intaektok_be.Auth.Login.{onboarded}
use intaektok_be.Auth.Guards.{is_admin_identity, is_listed, admin_guard, onboarded_guard}

pub record MyProfile : Type 0 where
  pub nickname : Text
  pub status_message : Option Text
  pub avatar_media_id : Option Ident
  pub avatar_url : Option Text

pub record Me : Type 0 where
  pub id : Ident
  pub kakao_id : Ident
  pub is_onboarded : Bool
  pub is_admin : Bool
  pub profile : Option MyProfile

abbrev my_profile : Env → Option Profile → World → Option MyProfile
my_profile env none w = none
my_profile env (some p) w = some (record {
  nickname = p.nickname;
  status_message = p.status_message;
  avatar_media_id = p.avatar_media_id;
  avatar_url = resolve_avatar_url env p.avatar_media_id w;
})

abbrev pub profile_of : Ident → World → Option Profile
profile_of user w = find (λ (p : Profile). p.user_id == user) w.profiles

abbrev pub about : Env → List Ident → User → World → Me
about env admins u w = record {
  id = u.id;
  kakao_id = u.kakao_id;
  is_onboarded = onboarded (profile_of u.id w);
  is_admin = is_admin_identity admins u.id (some u.kakao_id);
  profile = my_profile env (profile_of u.id w) w;
}

-- `admins` are the configured `admin.userIds`.
unfoldable pub me : Env → List Ident → Ident → Call Me
me env admins user = do
  found ← gets (find_user user)
  u ← or_throw found (not_found "사용자를 찾을 수 없습니다.")
  gets (about env admins u)

abbrev refused_admin : Result Bool
refused_admin = err (forbidden "관리자 권한이 필요합니다.")

admin_guard_lem :
    (admins : List Ident) (user : Ident) (u : User) (w : World)
    → (user == 0) ≡ false
    → find_user user w ≡ some u
    → (admin_guard admins user w).0
      ≡ (if is_admin_identity admins user (some u.kakao_id) then ok true else refused_admin)
unfolding admin_guard is_admin_identity
admin_guard_lem [] user u w n f = ground (arith, n, f)
admin_guard_lem (a ∷ as') user u w n f = elim (Bool-cases (contains (a ∷ as') user)) [
  | inl c ↦ rw (n, f, c) refl
  | inr c ↦ elim (Bool-cases (is_listed (a ∷ as') (some u.kakao_id))) [
    | inl d ↦ rw (n, f, c, d) refl
    | inr d ↦ rw (n, f, c, d) refl
  ]
]

onboarded_guard_lem :
    (user : Ident) (w : World)
    → (user == 0) ≡ false
    → ((onboarded_guard user w).0 ≡ ok true) ↔ (onboarded (profile_of user w) ≡ true)
unfolding onboarded_guard
onboarded_guard_lem user w n = elim (Bool-cases (onboarded (profile_of user w))) [
  | inl e ↦ rw (n, e) ((λ _. refl), λ _. refl)
  | inr e ↦ rw (n, e) ((λ h. cc), λ h. cc)
]

if_ok : (b : Bool) → (b ≡ true) ↔ ((if b then ok true else refused_admin) ≡ ok true)
if_ok true = ((λ _. refl), λ _. refl)
if_ok false = ((λ h. cc), λ h. cc)

me_lem :
    (env : Env) (admins : List Ident) (user : Ident) (u : User) (w : World)
    → find_user user w ≡ some u
    → (me env admins user w).0 ≡ ok (about env admins u w)
unfolding me
me_lem env admins user u w f = rw f refl

me-none :
    (env : Env) (admins : List Ident) (user : Ident) (w : World)
    → find_user user w ≡ none
    → (me env admins user w).0 ≡ err (not_found "사용자를 찾을 수 없습니다.")
unfolding me
me-none env admins user w f = rw f refl

ok_injective : {A : Type 0} (a b : A) → ok a ≡ ok b → a ≡ b
ok_injective a b e = cc

-- What `me` reports agrees with the guards: the user is an admin exactly if the admin guard lets the
-- user pass, and onboarded exactly if the guard of the feature endpoints does.
pub me_agrees :
    (env : Env) (admins : List Ident) (user : Ident) (m : Me) (w : World)
    → (user == 0) ≡ false
    → (me env admins user w).0 ≡ ok m
    → ((m.is_admin ≡ true) ↔ ((admin_guard admins user w).0 ≡ ok true))
      × ((m.is_onboarded ≡ true) ↔ ((onboarded_guard user w).0 ≡ ok true))
me_agrees env admins user m w n h = elim (Option-cases (find_user user w)) [
  | inl f ↦ let e = me-none env admins user w f in cc
  | inr (u, f) ↦
      let same = ok_injective m (about env admins u w) (sym h ∙ me_lem env admins user u w f) in
      let (to, from) = onboarded_guard_lem user w n in
      rw (same, is_user u f, admin_guard_lem admins user u w n f)
        (if_ok (is_admin_identity admins user (some u.kakao_id)), (from, to))
]
  where
    is_user : (u : User) → find_user user w ≡ some u → u.id ≡ user
    is_user u f = let e = find-holds (λ (x : User). x.id == user) w.users u f in ground (arith, e)
