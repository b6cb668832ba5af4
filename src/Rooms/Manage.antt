-- ===== src/Rooms/Manage.antt =====
-- src/rooms/rooms.service.ts: `updateRoom`, `addMembers` and `updateMemberRole`. The role of the actor
-- is the one that `RoomMemberGuard` has read.
pub mod Roles
pub mod Admission
use intaektok_be.Prelude.{
  ℕ, Bool, true, false, not, ◌&&◌, ◌||◌, Option, none, some, List, [], ◌∷◌, Ident, Text, ◌==◌,
  if◌then◌else◌, find, select, update_where, contains, dedup, is_some, text_eq,
}
use intaektok_be.Prisma.{Room, RoomMember, MemberRole, owner, admin, member, is_owner}
use intaektok_be.Common.Errors.{not_found, validation}
use intaektok_be.Common.Views.{RoomView}
use intaektok_be.Common.Events.{room_updated}
use intaektok_be.World.{World, Call, pure, throw, gets, ◌>>=◌, ◌>>◌, throw_if, when, modify}
use intaektok_be.Env.{Env}
use intaektok_be.Messages.SystemMessage
use intaektok_be.Messages.Seq.{db_max_seq}
use intaektok_be.Messages.Checks.{is_member_row, find_member, is_absent, get_active_member_ids}
use intaektok_be.Messages.Create.{create_system_message}
use intaektok_be.Media.{assert_owned_media_or_null}
use intaektok_be.Rooms.View.{get_room_view, emit_lifecycle}
use intaektok_be.Rooms.Checks.{assert_active_users, require_group, require_role}
use intaektok_be.Rooms.Create.{new_member}

-- `none` is a field that is absent, and `some none` one that is null, which `@IsOptional` lets through.
pub record UpdateRoomDto : Type 0 where
  pub name : Option (Option Text)
  pub avatar_media_id : Option (Option Ident)

-- The fields that are given replace those of the row.
abbrev pub patched {ℓ} : {A : Type ℓ} → Option A → A → A
patched none old = old
patched (some a) old = a

-- Absent and null are alike to the check of the media.
abbrev given : Option (Option Ident) → Option Ident
given none = none
given (some o) = o

abbrev pub patch_room : UpdateRoomDto → Room → Room
patch_room dto r = record r {
  name = patched dto.name r.name;
  avatar_media_id = patched dto.avatar_media_id r.avatar_media_id;
}

-- `dto.name !== undefined && dto.name !== room.name`
abbrev renames : Option (Option Text) → Option Text → Bool
renames none old = false
renames (some none) none = false
renames (some none) (some o) = true
renames (some (some n)) none = true
renames (some (some n)) (some o) = not (text_eq n o)

-- Tells the active members of a room that it has changed.
unfoldable pub announce : Env → Ident → Call (Unit {0})
announce env room = do
  ids ← gets (get_active_member_ids room)
  emit_lifecycle env room_updated room ids

unfoldable pub update_room : Env → Ident → Ident → MemberRole → UpdateRoomDto → Call RoomView
update_room env room actor actor_role dto = do
  r ← require_group room
  require_role actor_role (owner ∷ admin ∷ [])
  assert_owned_media_or_null (given dto.avatar_media_id) actor
  modify
      λ w. record w { rooms = update_where (λ (x : Room). x.id == room) (patch_room dto) w.rooms }
  when (renames dto.name r.name) (do
    create_system_message env room actor (SystemMessage.room_renamed actor (patched dto.name none))
    pure tt)
  when (is_some dto.avatar_media_id)
      (do create_system_message env room actor (SystemMessage.room_avatar_changed actor); pure tt)
  announce env room
  get_room_view env room actor

-- A member who had left comes back as a plain member who has read up to the head.
abbrev pub readmitted : ℕ → ℕ → RoomMember → RoomMember
readmitted now head m = record m {
  role = member;
  joined_at = now;
  last_read_seq = head;
  left_at = none;
}

abbrev pub readmit : Ident → Ident → ℕ → World → World
readmit room user head w = record w {
  members = update_where (is_member_row room user) (readmitted w.now head) w.members;
}

abbrev pub admit : Ident → Ident → ℕ → World → World
admit room user head w = record w { members = new_member room user member w.now head ∷ w.members }

-- What the loop does with one user, by the row that was read before the loop: the new state and
-- whether the user was added.
abbrev pub admit_one : Ident → Ident → ℕ → Option RoomMember → World → World × Bool
admit_one room user head none w = (admit room user head w, true)
admit_one room user head (some m) w =
    if is_some m.left_at then (readmit room user head w, true) else (w, false)

abbrev cons_if : Bool → Ident → List Ident → List Ident
cons_if true u us = u ∷ us
cons_if false u us = us

-- The loop over the users, with the rows that were read before it; it returns who was added.
unfoldable pub admit_all : Ident → ℕ → List RoomMember → List Ident → World → List Ident × World
admit_all room head existing [] w = ([], w)
admit_all room head existing (u ∷ us) w =
    let (v, added) = admit_one room u head (find (is_member_row room u) existing) w in
    let (rest, v') = admit_all room head existing us v in (cons_if added u rest, v')

abbrev pub existing_rows : Ident → List Ident → World → List RoomMember
existing_rows room ids w =
    select (λ (m : RoomMember). m.room_id == room && contains ids m.user_id) w.members

abbrev pub admit_call : Ident → ℕ → List RoomMember → List Ident → Call (List Ident)
admit_call room head existing ids w =
    let (added, v) = admit_all room head existing ids w in (intaektok_be.World.ok added, v)

abbrev not_empty : List Ident → Bool
not_empty [] = false
not_empty (_ ∷ _) = true

unfoldable pub add_members : Env → Ident → Ident → MemberRole → List Ident → Call RoomView
unfolding dedup
add_members env room actor actor_role user_ids = do
  require_group room
  require_role actor_role (owner ∷ admin ∷ [])
  assert_active_users user_ids
  head ← gets (db_max_seq room)
  existing ← gets (existing_rows room user_ids)
  added ← admit_call room head existing (dedup user_ids)
  when (not_empty added) (do
    announce env room
    create_system_message env room actor (SystemMessage.member_joined actor added)
    pure tt)
  get_room_view env room actor

abbrev pub with_role : MemberRole → RoomMember → RoomMember
with_role role m = record m { role = role }

-- The transaction: a new owner demotes the one who acts.
abbrev pub change_role : Ident → Ident → Ident → MemberRole → List RoomMember → List RoomMember
change_role room actor target role ms =
    let changed = update_where (is_member_row room target) (with_role role) ms in
    if is_owner role
    then update_where (is_member_row room actor) (with_role admin) changed
    else changed

unfoldable pub update_member_role :
    Env → Ident → Ident → MemberRole → Ident → MemberRole → Call RoomView
update_member_role env room actor actor_role target role = do
  require_group room
  require_role actor_role (owner ∷ [])
  found ← gets (find_member room target)
  throw_if (is_absent found) (not_found "대상 멤버를 찾을 수 없습니다.")
  throw_if (target == actor) (validation "본인 권한은 변경할 수 없습니다.")
  modify λ w. record w { members = change_role room actor target role w.members }
  create_system_message env room actor (SystemMessage.role_changed actor target role)
  announce env room
  get_room_view env room actor
