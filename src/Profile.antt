-- ===== src/Profile.antt =====
-- src/profile/profile.service.ts: onboarding and the changes of a profile.
pub mod Onboarding
use intaektok_be.Prelude.{
  ℕ, Bool, true, false, Option, none, some, List, ◌∷◌, Ident, Text, ◌==◌, if◌then◌else◌, find,
  update_where, is_some,
}
use intaektok_be.Prisma.{Profile}
use intaektok_be.Common.Errors.{conflict, not_found, thrown}
use intaektok_be.World.{World, Call, pure, gets, or_throw, ◌>>=◌, ◌>>◌, throw_if, modify}
use intaektok_be.Env.{Env}
use intaektok_be.Media.{assert_owned_media_or_null, resolve_avatar_url}
use intaektok_be.Auth.Login.{onboarded}

pub record CreateProfileDto : Type 0 where
  pub nickname : Text
  pub status_message : Option Text
  pub avatar_media_id : Option Ident

-- A field of a PATCH is absent, or null, or has a value.
pub record UpdateProfileDto : Type 0 where
  pub nickname : Option (Option Text)
  pub status_message : Option (Option Text)
  pub avatar_media_id : Option (Option Ident)

pub record ProfileView : Type 0 where
  pub profile : Profile
  pub avatar_url : Option Text

abbrev pub is_of : Ident → Profile → Bool
is_of user p = p.user_id == user

abbrev pub find_own : Ident → World → Option Profile
find_own user w = find (is_of user) w.profiles

abbrev pub onboarding : Ident → CreateProfileDto → ℕ → Profile
onboarding user dto now = record {
  user_id = user;
  nickname = dto.nickname;
  status_message = dto.status_message;
  avatar_media_id = dto.avatar_media_id;
  onboarded_at = some now;
}

-- The update of `upsert` writes the same fields as its create.
abbrev pub onboard : Ident → CreateProfileDto → World → World
onboard user dto w =
    if is_some (find_own user w)
    then record w {
      profiles = update_where (is_of user) (λ _. onboarding user dto w.now) w.profiles;
    }
    else record w { profiles = onboarding user dto w.now ∷ w.profiles }

abbrev view_of : Env → Profile → World → ProfileView
view_of env p w = record { profile = p; avatar_url = resolve_avatar_url env p.avatar_media_id w }

unfoldable pub create : Env → Ident → CreateProfileDto → Call ProfileView
create env user dto = do
  existing ← gets (find_own user)
  throw_if (onboarded existing) (conflict "이미 온보딩이 완료된 사용자입니다.")
  assert_owned_media_or_null dto.avatar_media_id user
  modify (onboard user dto)
  gets (λ w. view_of env (onboarding user dto w.now) w)

abbrev or_kept : {A : Type 0} → Option A → A → A
or_kept none a = a
or_kept (some b) a = b

-- A nickname that is null is none of the column, and the update throws.
abbrev is_null : Option (Option Text) → Bool
is_null none = false
is_null (some none) = true
is_null (some (some _)) = false

abbrev given : Option (Option Text) → Option Text
given none = none
given (some o) = o

abbrev pub patched : UpdateProfileDto → Profile → Profile
patched dto p = record p {
  nickname = or_kept (given dto.nickname) p.nickname;
  status_message = or_kept dto.status_message p.status_message;
  avatar_media_id = or_kept dto.avatar_media_id p.avatar_media_id;
}

-- The id that the check of the media sees: absent and null are alike to it.
abbrev media_of : Option (Option Ident) → Option Ident
media_of none = none
media_of (some o) = o

unfoldable pub update : Env → Ident → UpdateProfileDto → Call ProfileView
update env user dto = do
  found ← gets (find_own user)
  existing ← or_throw found (not_found "프로필을 찾을 수 없습니다.")
  assert_owned_media_or_null (media_of dto.avatar_media_id) user
  throw_if (is_null dto.nickname) thrown
  modify λ w. record w { profiles = update_where (is_of user) (patched dto) w.profiles }
  gets (view_of env (patched dto existing))
