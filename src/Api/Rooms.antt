-- ===== src/Api/Rooms.antt =====
-- src/rooms/rooms.controller.ts
use intaektok_be.Prelude.{ℕ, List, Ident}
use intaektok_be.Prisma.{MemberRole}
use intaektok_be.Common.Views.{RoomView}
use intaektok_be.World.{Call}
use intaektok_be.Messages.History.{Paginated}
use intaektok_be.Auth.Guards.{ActiveMembership}
use intaektok_be.Rooms.View.{get_room_view}
use intaektok_be.Rooms.Create.{CreateRoomDto, create_room}
use intaektok_be.Rooms.Manage.{UpdateRoomDto, update_room}
use intaektok_be.Rooms.Listing.{list_rooms}
use intaektok_be.Api.{Server, CursorPaginationDto, or_default}

unfoldable pub list : Server → Ident → CursorPaginationDto ℕ → Call (Paginated RoomView)
list s user q = list_rooms s.env user q.cursor (or_default q.limit 30)

unfoldable pub create : Server → Ident → CreateRoomDto → Call RoomView
create s user dto = create_room s.env user dto

unfoldable pub detail : Server → Ident → Ident → Call RoomView
detail s user room = get_room_view s.env room user

unfoldable pub update : Server → Ident → ActiveMembership → UpdateRoomDto → Call RoomView
update s room m dto = update_room s.env room m.user_id m.role dto

unfoldable pub add_members : Server → Ident → ActiveMembership → List Ident → Call RoomView
add_members s room m user_ids =
    intaektok_be.Rooms.Manage.add_members s.env room m.user_id m.role user_ids

unfoldable pub update_member_role :
    Server → Ident → Ident → ActiveMembership → MemberRole → Call RoomView
update_member_role s room user m role =
    intaektok_be.Rooms.Manage.update_member_role s.env room m.user_id m.role user role

unfoldable pub remove_member : Server → Ident → Ident → ActiveMembership → Call (Unit {0})
remove_member s room user m =
    intaektok_be.Rooms.Leave.remove_member s.env room m.user_id m.role user
