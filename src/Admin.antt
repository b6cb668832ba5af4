-- ===== src/Admin.antt =====
-- src/admin/admin.service.ts: the whitelist and the queue of access requests.
pub mod Block
pub mod Requests
pub mod Listing
use intaektok_be.Prelude.{
  ℕ, suc, Bool, true, false, not, ◌&&◌, ◌||◌, Option, none, some, List, [], ◌∷◌, ◌++◌, Ident, Text,
  codes, ◌==◌, if◌then◌else◌, find, select, update_where, delete_where, count, take, length, ltb,
  leb, is_some, truthy,
}
use intaektok_be.Prisma.{
  User, UserStatus, Whitelist, WhitelistStatus, AccessRequest, is_blocked, is_suspended, is_invited,
}
use intaektok_be.Common.Errors.{known_request, thrown, validation, conflict, not_found}
use intaektok_be.Common.Events.{Event, session_revoked}
use intaektok_be.World.{
  World, Result, ok, err, Call, pure, throw, gets, or_throw, ◌>>=◌, ◌>>◌, throw_if, when, modify,
  emit,
}
use intaektok_be.Env.{Env}
use intaektok_be.Auth.Session.{drop_refresh}
use intaektok_be.Auth.Login.{find_whitelist, find_kakao}

pub record CreateWhitelistDto : Type 0 where
  pub kakao_id : Option Ident
  pub identifier : Option Ident
  pub note : Option Text

abbrev registered : Option Ident → World → Bool
registered none w = false
registered (some k) w = not (k == 0) && is_some (find_whitelist k w)

abbrev pub entry_of : Env → CreateWhitelistDto → Ident → World → Whitelist
entry_of env dto invited_by w = record {
  id = env.cuid w.issued;
  kakao_id = dto.kakao_id;
  identifier = dto.identifier;
  status = WhitelistStatus.invited;
  invited_by = some invited_by;
  note = dto.note;
  created_at = w.now;
}

-- `kakaoId` is unique; null is not compared.
abbrev pub is_taken : Option Ident → World → Bool
is_taken none w = false
is_taken (some k) w = is_some (find_whitelist k w)

-- `whitelist.create`
abbrev pub add_entry : Whitelist → Call (Unit {0})
add_entry x w =
    if is_taken x.kakao_id w
    then (err (known_request 2002), w)
    else (ok tt, record w { whitelist = x ∷ w.whitelist; issued = suc w.issued })

unfoldable pub create : Env → CreateWhitelistDto → Ident → Call Whitelist
create env dto invited_by = do
  throw_if (not (truthy dto.kakao_id) && not (truthy dto.identifier))
      (validation "kakaoId 또는 identifier 중 하나는 필요합니다.")
  exists ← gets (registered dto.kakao_id)
  throw_if exists (conflict "이미 등록된 kakaoId 입니다.")
  x ← gets (entry_of env dto invited_by)
  add_entry x
  pure x

-- `none` is a field that is absent, and `some none` one that is null, which `@IsOptional` lets through.
pub record UpdateWhitelistDto : Type 0 where
  pub status : Option (Option WhitelistStatus)
  pub note : Option (Option Text)

abbrev or_kept : {A : Type 0} → Option A → A → A
or_kept none a = a
or_kept (some b) a = b

-- A status that is null is no status of the column, and the update throws.
abbrev is_null : Option (Option WhitelistStatus) → Bool
is_null none = false
is_null (some none) = true
is_null (some (some _)) = false

abbrev pub given : Option (Option WhitelistStatus) → Option WhitelistStatus
given none = none
given (some o) = o

abbrev pub patched : UpdateWhitelistDto → Whitelist → Whitelist
patched dto x = record x {
  status = or_kept (given dto.status) x.status;
  note = or_kept dto.note x.note;
}

abbrev pub is_entry : Ident → Whitelist → Bool
is_entry id x = x.id == id

abbrev pub linked_user : Whitelist → World → Option User
linked_user x w = elim x.kakao_id [ none ↦ none | some k ↦ if k == 0 then none else find_kakao k w ]

abbrev pub with_status : UserStatus → User → User
with_status s u = record u { status = s }

abbrev pub set_status : Ident → UserStatus → World → World
set_status user s w = record w {
  users = update_where (λ (u : User). u.id == user) (with_status s) w.users;
}

abbrev pub block_user : Option User → Call (Unit {0})
block_user none = pure tt
block_user (some u) = do
  modify (set_status u.id UserStatus.suspended)
  modify (drop_refresh u.id)
  emit (session_revoked u.id)

-- `enforceBlock`
unfoldable pub enforce_block : Whitelist → Call (Unit {0})
enforce_block x w = block_user (linked_user x w) w

abbrev pub restore_user : Option User → Call (Unit {0})
restore_user none = pure tt
restore_user (some u) = when (is_suspended u.status) (modify (set_status u.id UserStatus.active))

unfoldable pub reactivate : Whitelist → Call (Unit {0})
reactivate x w = restore_user (linked_user x w) w

-- What a status that is set means for the linked user.
abbrev pub follow_up : Option WhitelistStatus → Whitelist → Whitelist → Call (Unit {0})
follow_up none existing updated = pure tt
follow_up (some s) existing updated =
    if is_blocked s
    then enforce_block updated
    else when (is_blocked existing.status) (reactivate updated)

unfoldable pub update : Ident → UpdateWhitelistDto → Call Whitelist
update id dto = do
  found ← gets (λ w. find (is_entry id) w.whitelist)
  existing ← or_throw found (not_found "화이트리스트 항목을 찾을 수 없습니다.")
  throw_if (is_null dto.status) thrown
  modify λ w. record w { whitelist = update_where (is_entry id) (patched dto) w.whitelist }
  follow_up (given dto.status) existing (patched dto existing)
  pure (patched dto existing)

unfoldable pub remove : Ident → Call (Unit {0})
remove id = do
  found ← gets (λ w. find (is_entry id) w.whitelist)
  _ ← or_throw found (not_found "화이트리스트 항목을 찾을 수 없습니다.")
  modify λ w. record w { whitelist = delete_where (is_entry id) w.whitelist }

abbrev pub is_request : Ident → AccessRequest → Bool
is_request id r = r.id == id

abbrev pub drop_request : Ident → World → World
drop_request id w = record w { access_requests = delete_where (is_request id) w.access_requests }

abbrev approval_note : Option Text → Text
approval_note (some (c ∷ cs)) = codes "가입 요청 승인: " ++ (c ∷ cs)
approval_note _ = codes "가입 요청 승인"

abbrev pub approved : Env → AccessRequest → Ident → World → Whitelist
approved env r invited_by w = record {
  id = env.cuid w.issued;
  kakao_id = some r.kakao_id;
  identifier = none;
  status = WhitelistStatus.invited;
  invited_by = some invited_by;
  note = some (approval_note r.nickname);
  created_at = w.now;
}

abbrev pub approve_new : Env → AccessRequest → Ident → Call Whitelist
approve_new env r invited_by = do
  x ← gets (approved env r invited_by)
  add_entry x
  modify (drop_request r.id)
  pure x

abbrev pub approve_found : Env → AccessRequest → Ident → Option Whitelist → Call Whitelist
approve_found env r invited_by none = approve_new env r invited_by
approve_found env r invited_by (some x) =
    if is_blocked x.status
    then throw (conflict "차단된 사용자입니다. 먼저 차단을 해제하세요.")
    else modify (drop_request r.id) >> pure x

unfoldable pub approve_access_request : Env → Ident → Ident → Call Whitelist
approve_access_request env id invited_by = do
  found ← gets (λ w. find (is_request id) w.access_requests)
  request ← or_throw found (not_found "가입 대기 항목을 찾을 수 없습니다.")
  existing ← gets (find_whitelist request.kakao_id)
  approve_found env request invited_by existing

unfoldable pub dismiss_access_request : Ident → Call (Unit {0})
dismiss_access_request id = do
  n ← gets (λ w. count (is_request id) w.access_requests)
  modify (drop_request id)
  throw_if (n == 0) (not_found "가입 대기 항목을 찾을 수 없습니다.")
