-- ===== src/Tests/Group.antt =====
-- The theorems on rooms, at a group of three.
use intaektok_be.Prelude.{
  none, some, map, [], ◌∷◌, Ident, find, count, contains, dedup, leb, if◌then◌else◌, ◌≡◌, refl, ◌↔◌,
  inl, arith,
}
use intaektok_be.Prisma.{RoomType, MemberRole}
use intaektok_be.Common.Views.{RoomView}
use intaektok_be.World.{World, Result, ok, err}
use intaektok_be.Messages.Checks.{is_member_row, find_member}
use intaektok_be.Rooms.View.{get_room_view, view_of, build_view, emit_lifecycle}
use intaektok_be.Rooms.Members.{UniqueMembers, owns, IsOwned}
use intaektok_be.Rooms.Create.{open_direct, insert_direct, opened_direct}
use intaektok_be.Messages.History.{history}
use intaektok_be.Rooms.Create.Direct.{back_in, IsOrder, open_direct_again}
use intaektok_be.Rooms.Manage.{change_role, with_role, admit_all, existing_rows}
use intaektok_be.Rooms.Manage.Roles.{change_role_owner}
use intaektok_be.Rooms.Manage.Admission.{admitted, admit_all_lem}
use intaektok_be.Rooms.Leave.{assert_may_remove, remove_member}
use intaektok_be.Rooms.Leave.Authority.{Removable, assert_may_remove_iff}
use intaektok_be.Rooms.Leave.Invariant.{remove_member-IsOwned}
use intaektok_be.Tests.{env, world, group, row}

rows_keyed : UniqueMembers world.members
rows_keyed = (refl, (refl, (refl, tt)))

remove_member-IsOwned_example : IsOwned 10 (remove_member env 10 1 MemberRole.owner 1 world).1
remove_member-IsOwned_example =
    remove_member-IsOwned env 10 (λ left w h. h) 1 1 MemberRole.owner group world refl refl
      (rows_keyed, inl refl)

assert_may_remove_iff_example :
    (assert_may_remove 10 3 MemberRole.admin 2 world
      ≡ (ok (group, row 2 MemberRole.member none), world))
    ↔ Removable 10 3 MemberRole.admin 2 group (row 2 MemberRole.member none) world
assert_may_remove_iff_example =
    assert_may_remove_iff 10 3 MemberRole.admin 2 group (row 2 MemberRole.member none) world

change_role_owner_example :
    (count (owns 10) (change_role 10 1 2 MemberRole.owner world.members) ≡ 1)
    × (find (is_member_row 10 2) (change_role 10 1 2 MemberRole.owner world.members)
        ≡ some (with_role MemberRole.owner (row 2 MemberRole.member none)))
    × (find (is_member_row 10 1) (change_role 10 1 2 MemberRole.owner world.members)
        ≡ some (row 1 MemberRole.admin none))
change_role_owner_example =
    change_role_owner 10 1 2 world.members (row 1 MemberRole.owner none)
      (row 2 MemberRole.member none) rows_keyed refl refl refl refl refl refl refl MemberRole.owner

-- Bob is in the group already, and 4 is not.
abbrev grown : World
grown = (admit_all 10 2 (existing_rows 10 (2 ∷ 4 ∷ []) world) (dedup (2 ∷ 4 ∷ [])) world).1

admit_all_lem_example :
    ((b : Ident)
      → find_member 10 b grown ≡ (
          if contains (2 ∷ 4 ∷ []) b
          then some (admitted 10 b 1000 2 (find_member 10 b world))
          else find_member 10 b world))
    × UniqueMembers grown.members
    × (count (owns 10) grown.members ≡ count (owns 10) world.members)
admit_all_lem_example = admit_all_lem 10 2 (2 ∷ 4 ∷ []) world rows_keyed

leb-IsOrder : IsOrder leb
leb-IsOrder = record { total = λ a b. ground arith; antisym = λ a b h k. ground arith }

abbrev opened : Result RoomView × World
opened = open_direct env 2 1 world

abbrev no_view : RoomView
no_view = record {
  id = 0;
  kind = RoomType.direct;
  name = none;
  avatar_url = none;
  created_by = 0;
  created_at = 0;
  last_message_at = none;
  members = [];
  last_message = none;
  unread_count = 0;
}

abbrev view_in : Result RoomView → RoomView
view_in (ok v) = v
view_in (err _) = no_view

open_direct_again_example :
    ((open_direct env 1 2 opened.1).1
      ≡ record opened.1 { members = map (back_in (view_in opened.0).id 2 1) opened.1.members })
    × ((v : RoomView) → (open_direct env 1 2 opened.1).0 ≡ ok v → v.id ≡ (view_in opened.0).id)
unfolding open_direct insert_direct opened_direct get_room_view view_of build_view history
    emit_lifecycle
open_direct_again_example =
    open_direct_again env 2 1 world opened.1 (view_in opened.0) leb-IsOrder refl
