-- ===== src/Rooms/Create.antt =====
-- src/rooms/rooms.service.ts: `createRoom`, for a pair of users with at most one room, and for groups.
pub mod Direct
use intaektok_be.Prelude.{
  ℕ, suc, Bool, true, false, not, ◌&&◌, ◌||◌, Option, none, some, List, [], ◌∷◌, ◌++◌, map, Ident,
  Text, ◌==◌, if◌then◌else◌, find, update_where, dedup, is_some,
}
use intaektok_be.Prisma.{Room, RoomMember, RoomType, direct, group, MemberRole, owner, member}
use intaektok_be.Common.Errors.{validation}
use intaektok_be.Common.Views.{RoomView}
use intaektok_be.Common.Events.{room_created}
use intaektok_be.World.{World, Call, pure, throw, gets, ◌>>=◌, ◌>>◌, throw_if, modify}
use intaektok_be.Env.{Env}
use intaektok_be.Messages.SystemMessage
use intaektok_be.Messages.Create.{create_system_message}
use intaektok_be.Media.{assert_owned_media_or_null}
use intaektok_be.Rooms.View.{get_room_view, emit_lifecycle}
use intaektok_be.Rooms.Checks.{assert_active_users}

pub record CreateRoomDto : Type 0 where
  pub kind : RoomType
  pub name : Option Text
  pub avatar_media_id : Option Ident
  pub member_user_ids : List Ident

-- `[a, b].sort()`, which `join(':')` keeps apart, since no id holds a colon.
abbrev pub direct_key : Env → Ident → Ident → Ident × Ident
direct_key env a b = if env.id_le a b then (a, b) else (b, a)

abbrev pub key_eq : Option (Ident × Ident) → Ident × Ident → Bool
key_eq none k = false
key_eq (some j) k = j.0 == k.0 && j.1 == k.1

abbrev pub find_direct : Ident × Ident → World → Option Room
find_direct key w = find (λ (r : Room). key_eq r.direct_key key) w.rooms

abbrev pub new_member : Ident → Ident → MemberRole → ℕ → ℕ → RoomMember
new_member room user role now head = record {
  room_id = room;
  user_id = user;
  role = role;
  joined_at = now;
  last_read_seq = head;
  muted_until = none;
  left_at = none;
}

-- A member of the pair that had left.
abbrev pub left_side : Ident → Ident → Ident → RoomMember → Bool
left_side room a b m =
    m.room_id == room && ((m.user_id == a || m.user_id == b) && is_some m.left_at)

abbrev pub rejoin : RoomMember → RoomMember
rejoin m = record m { left_at = none }

unfoldable pub reactivate_direct : Env → Ident → Ident → Ident → Call RoomView
reactivate_direct env room creator other = do
  modify λ w. record w { members = update_where (left_side room creator other) rejoin w.members }
  get_room_view env room creator

abbrev pub direct_room : Env → Ident → Ident × Ident → World → Room
direct_room env creator key w = record {
  id = env.cuid w.issued;
  kind = direct;
  name = none;
  avatar_media_id = none;
  created_by = creator;
  created_at = w.now;
  last_message_at = none;
  direct_key = some key;
}

abbrev pub add_direct : Ident → Ident → Room → World → World
add_direct creator other r w = record w {
  rooms = r ∷ w.rooms;
  members =
      new_member r.id creator member w.now 0 ∷ new_member r.id other member w.now 0 ∷ w.members;
  issued = suc w.issued;
}

-- The view and the event of a room that was just inserted.
unfoldable pub opened_direct : Env → Ident → Ident → Room → Call RoomView
opened_direct env creator other r = do
  view ← get_room_view env r.id creator
  emit_lifecycle env room_created r.id (creator ∷ other ∷ [])
  pure view

-- The insert, under the unique key; `P2002` leads to the room of whoever was first.
unfoldable pub insert_direct : Env → Ident → Ident → Call RoomView
insert_direct env creator other w =
    let key = direct_key env creator other in
    let v = env.others 0 w in
    elim (find_direct key v) [
      | some r ↦ reactivate_direct env r.id creator other v
      | none ↦
          let r = direct_room env creator key v in
          opened_direct env creator other r (add_direct creator other r v)
    ]

-- The path after the checks on the two users.
unfoldable pub open_direct : Env → Ident → Ident → Call RoomView
open_direct env creator other w = elim (find_direct (direct_key env creator other) w) [
  | some r ↦ reactivate_direct env r.id creator other w
  | none ↦ insert_direct env creator other w
]

unfoldable pub create_direct : Env → Ident → List Ident → Call RoomView
create_direct env creator (other ∷ []) = do
  throw_if (other == creator) (validation "자기 자신과는 방을 만들 수 없습니다.")
  assert_active_users (creator ∷ other ∷ [])
  open_direct env creator other
create_direct env creator _ = throw (validation "1:1 방은 상대 1명을 지정해야 합니다.")

abbrev pub group_room : Env → Ident → CreateRoomDto → World → Room
group_room env creator dto w = record {
  id = env.cuid w.issued;
  kind = group;
  name = dto.name;
  avatar_media_id = dto.avatar_media_id;
  created_by = creator;
  created_at = w.now;
  last_message_at = none;
  direct_key = none;
}

abbrev pub group_member : Ident → Ident → ℕ → Ident → RoomMember
group_member room creator now user =
    new_member room user (if user == creator then owner else member) now 0

abbrev pub add_group : Ident → List Ident → Room → World → World
add_group creator ids r w = record w {
  rooms = r ∷ w.rooms;
  members = map (group_member r.id creator w.now) ids ++ w.members;
  issued = suc w.issued;
}

unfoldable pub create_group : Env → Ident → CreateRoomDto → Call RoomView
create_group env creator dto = do
  let ids = dedup (creator ∷ dto.member_user_ids)
  assert_active_users ids
  assert_owned_media_or_null dto.avatar_media_id creator
  r ← gets (group_room env creator dto)
  modify (add_group creator ids r)
  emit_lifecycle env room_created r.id ids
  create_system_message env r.id creator (SystemMessage.room_created creator)
  get_room_view env r.id creator

unfoldable pub create_room : Env → Ident → CreateRoomDto → Call RoomView
create_room env creator dto = elim (dto.kind) [
  | direct ↦ create_direct env creator dto.member_user_ids
  | group ↦ create_group env creator dto
]
