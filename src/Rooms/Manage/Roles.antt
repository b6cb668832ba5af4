-- ===== src/Rooms/Manage/Roles.antt =====
-- On the transaction of `updateMemberRole` (src/rooms/rooms.service.ts).
use intaektok_be.Prelude.{
  ◌≡◌, refl, false, none, some, List, Ident, ◌==◌, if◌then◌else◌, find, update_where, count, arith,
  count-update_where, count-pos, find-holds, find-update_where, find-update_where_ne,
}
use intaektok_be.Prisma.{RoomMember, MemberRole, owner, admin, is_owner}
use intaektok_be.Messages.Checks.{is_member_row}
use intaektok_be.Rooms.Manage.{with_role, change_role}
use intaektok_be.Rooms.Members.{UniqueMembers, AtMostOne-member, owns, update-UniqueMembers}

module _ (room actor target : Ident) (ms : List RoomMember) (x t : RoomMember)
    (u : UniqueMembers ms) (acting : find (is_member_row room actor) ms ≡ some x)
    (leads : x.role ≡ owner) (there : x.left_at ≡ none)
    (found : find (is_member_row room target) ms ≡ some t) (active : t.left_at ≡ none)
    (apart : (target == actor) ≡ false) (one : count (owns room) ms ≡ 1) where
  other_row :
      (a b : Ident) (f : RoomMember → RoomMember) (ns : List RoomMember)
      → (a == b) ≡ false
      → ((m : RoomMember) → ((f m).room_id ≡ m.room_id) × ((f m).user_id ≡ m.user_id))
      → find (is_member_row room b) (update_where (is_member_row room a) f ns)
        ≡ find (is_member_row room b) ns
  other_row a b f ns ne k =
      find-update_where_ne (is_member_row room a) (is_member_row room b) f ns (λ m h. ground arith)
        (λ m h. ground (arith, k m))

  -- The target is not the owner already.
  target_plain : is_owner t.role ≡ false
  target_plain =
      let key = is_member_row room actor in
      let demoted =
        count-update_where key (owns room) (with_role admin) ms x (AtMostOne-member room actor ms u)
          acting in
      let same = other_row actor target (with_role admin) ms (ground arith) (λ m. (refl, refl)) in
      let held = find-holds key ms x acting in
      let held' = find-holds (is_member_row room target) ms t found in
      let there' =
        count-pos (is_member_row room target) (owns room) (update_where key (with_role admin) ms)
          t in
      ground (arith, demoted, same, held, held', there')

  -- Where the rows are keyed by room and user and the room has one active owner: after this owner has
  -- given another active member a role, the room has one active owner, the member has the role, and the
  -- actor is as before, or an admin if the role was that of the owner.
  pub change_role_owner :
      (role : MemberRole)
      → (count (owns room) (change_role room actor target role ms) ≡ 1)
        × (find (is_member_row room target) (change_role room actor target role ms)
            ≡ some (with_role role t))
        × (find (is_member_row room actor) (change_role room actor target role ms)
            ≡ some (if is_owner role then with_role admin x else x))
  change_role_owner role =
      let key = is_member_row room target in
      let key' = is_member_row room actor in
      let ns = update_where key (with_role role) ms in
      let changed =
        count-update_where key (owns room) (with_role role) ms t (AtMostOne-member room target ms u)
          found in
      let found' = find-update_where key (with_role role) ms t (λ m h. h) found in
      let acting' = other_row target actor (with_role role) ms apart (λ m. (refl, refl)) in
      let u' = update-UniqueMembers key (with_role role) (λ m. (refl, refl)) ms u in
      let demoted =
        count-update_where key' (owns room) (with_role admin) ns x
          (AtMostOne-member room actor ns u') in
      let acting'' = find-update_where key' (with_role admin) ns x (λ m h. h) in
      let found'' =
        other_row actor target (with_role admin) ns (ground arith) (λ m. (refl, refl)) in
      let held = find-holds key ms t found in
      let held' = find-holds key' ms x acting in
      (
        ground (arith, changed, acting', demoted, held, held', target_plain),
        ground (arith, found', found''),
        ground (arith, acting', acting''),
      )
