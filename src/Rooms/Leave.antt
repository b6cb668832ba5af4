-- ===== src/Rooms/Leave.antt =====
-- src/rooms/rooms.service.ts: `removeMember`, by which a member leaves or is removed, and
-- `transferOwnership`.
pub mod Ownership
pub mod Authority
pub mod Invariant
use intaektok_be.Prelude.{
  ℕ, Bool, true, false, not, ◌&&◌, ◌||◌, Option, none, some, List, [], ◌∷◌, ◌++◌, Ident, ◌==◌, ltb,
  leb, if◌then◌else◌, find, update_where, dedup,
}
use intaektok_be.Prisma.{
  Room, RoomMember, MemberRole, owner, admin, member, is_owner, is_admin, is_plain, is_group,
}
use intaektok_be.Common.Errors.{forbidden, not_found}
use intaektok_be.Common.Events.{room_updated}
use intaektok_be.World.{World, Call, pure, gets, or_throw, ◌>>=◌, ◌>>◌, throw_if, when, modify}
use intaektok_be.Env.{Env}
use intaektok_be.Messages.SystemMessage
use intaektok_be.Messages.SystemMessage.{SystemMessagePayload}
use intaektok_be.Messages.Checks.{is_member_row, find_member, is_absent, get_active_member_ids}
use intaektok_be.Messages.Create.{create_system_message}
use intaektok_be.Rooms.View.{find_room, active_members, first, emit_lifecycle}
use intaektok_be.Rooms.Manage.{with_role}

-- The order of the enumeration.
abbrev pub rank : MemberRole → ℕ
rank owner = 0
rank admin = 1
rank member = 2

-- `orderBy: [{ role: 'asc' }, { joinedAt: 'asc' }]`
abbrev pub comes_first : RoomMember → RoomMember → Bool
comes_first a b =
    ltb (rank a.role) (rank b.role) || (rank a.role == rank b.role && leb a.joined_at b.joined_at)

abbrev pub insert_senior : RoomMember → List RoomMember → List RoomMember
insert_senior m [] = m ∷ []
insert_senior m (x ∷ xs) = if comes_first m x then m ∷ x ∷ xs else x ∷ insert_senior m xs

abbrev pub order_senior : List RoomMember → List RoomMember
order_senior [] = []
order_senior (m ∷ ms) = insert_senior m (order_senior ms)

-- `candidates.find(admin) ?? candidates[0]`
abbrev pub or_first : Option RoomMember → List RoomMember → Option RoomMember
or_first (some m) ms = some m
or_first none ms = first ms

unfoldable pub next_owner : Ident → World → Option RoomMember
next_owner room w =
    let candidates = order_senior (active_members room w) in
    or_first (find (λ (m : RoomMember). is_admin m.role) candidates) candidates

unfoldable pub transfer_ownership : Ident → World → World
transfer_ownership room w = elim (next_owner room w) [
  | none ↦ w
  | some m ↦ record w {
    members = update_where (is_member_row room m.user_id) (with_role owner) w.members;
  }
]

-- The checks on removing someone else.
unfoldable pub assert_may_kick : MemberRole → MemberRole → Call (Unit {0})
assert_may_kick actor_role target_role = do
  throw_if (is_plain actor_role) (forbidden "멤버를 내보낼 권한이 없습니다.")
  throw_if (is_owner target_role) (forbidden "소유자는 내보낼 수 없습니다.")
  throw_if (is_admin actor_role && is_admin target_role) (forbidden "관리자는 다른 관리자를 내보낼 수 없습니다.")

abbrev pub gone : ℕ → RoomMember → RoomMember
gone now m = record m { left_at = some now }

abbrev pub set_left : Ident → Ident → World → World
set_left room user w = record w {
  members = update_where (is_member_row room user) (gone w.now) w.members;
}

abbrev leave_payload : Bool → Ident → Ident → SystemMessagePayload
leave_payload true actor target = SystemMessage.member_left actor
leave_payload false actor target = SystemMessage.member_kicked actor target

-- The checks, which find the room and the row of the target.
unfoldable pub assert_may_remove : Ident → Ident → MemberRole → Ident → Call (Room × RoomMember)
assert_may_remove room actor actor_role target = do
  found ← gets (find_room room)
  r ← or_throw found (not_found "채팅방을 찾을 수 없습니다.")
  row ← gets (find_member room target)
  throw_if (is_absent row) (not_found "대상 멤버를 찾을 수 없습니다.")
  t ← or_throw row (not_found "대상 멤버를 찾을 수 없습니다.")
  when (not (target == actor)) (assert_may_kick actor_role t.role)
  pure (r, t)

-- The rows after the target has left.
unfoldable pub leave : Ident → Ident → Room → RoomMember → Call (Unit {0})
leave room target r t = do
  modify (set_left room target)
  when (is_owner t.role && is_group r.kind) (modify (transfer_ownership room))

-- The SYSTEM message of a group.
unfoldable pub tell_left : Env → Ident → Ident → Ident → Call (Unit {0})
tell_left env room actor target = do
  create_system_message env room actor (leave_payload (target == actor) actor target)
  pure tt

-- The event, for those who stay and for who has left.
unfoldable pub announce_left : Env → Ident → Ident → Call (Unit {0})
unfolding dedup
announce_left env room target = do
  active ← gets (get_active_member_ids room)
  emit_lifecycle env room_updated room (dedup (active ++ target ∷ []))

unfoldable pub tell_removed : Env → Ident → Ident → Ident → Room → Call (Unit {0})
tell_removed env room actor target r = do
  when (is_group r.kind) (tell_left env room actor target)
  announce_left env room target

-- What follows the checks.
unfoldable pub remove_found : Env → Ident → Ident → Ident → Room × RoomMember → Call (Unit {0})
remove_found env room actor target (r, t) = do
  leave room target r t
  tell_removed env room actor target r

unfoldable pub remove_member : Env → Ident → Ident → MemberRole → Ident → Call (Unit {0})
remove_member env room actor actor_role target = do
  found ← assert_may_remove room actor actor_role target
  remove_found env room actor target found
