-- ===== src/Realtime/Socket.antt =====
-- src/realtime/realtime.gateway.ts: sockets, what is sent, and the members that share a room with a
-- user.
use intaektok_be.Prelude.{
  ℕ, Bool, not, ◌&&◌, Option, List, [], ◌∷◌, map, Ident, ◌==◌, select, contains, dedup, is_some,
}
use intaektok_be.Prisma.{RoomMember}
use intaektok_be.Common.Errors.{Error, app, known_request, thrown}
use intaektok_be.Common.ErrorCode.{ErrorCode}
use intaektok_be.Common.Views.{SerializedMessage, RoomView}
use intaektok_be.Prelude.{String}
use intaektok_be.World.{World}

-- `client.data.userId`, the rooms that the socket has joined, and whether it is connected; its
-- personal room is that of its user.
pub record Client : Type 0 where
  pub id : Ident
  pub user_id : Option Ident
  pub joined : List Ident
  pub connected : Bool

-- What is emitted, with its name.
pub data Packet : Type 0 where
  message_new : SerializedMessage → Packet
  message_read : Ident → Ident → ℕ → Packet
  message_deleted : Ident → Ident → Packet
  room_created room_updated : RoomView → Packet
  typing : Ident → Ident → Bool → Packet
  -- a user came online, or went offline at a time
  presence_online : Ident → Packet
  presence_offline : Ident → ℕ → Packet

pub data Send : Type 0 where
  -- to the personal rooms of users
  to_users : List Ident → Packet → Send
  -- to the sockets in a user's personal room: disconnect
  disconnect_user : Ident → Send
  -- the error that refuses a connection, to the socket itself
  refuse : Ident → Send

-- `emitToUsers`
abbrev pub emit_to_users : List Ident → Packet → List Send
emit_to_users [] p = []
emit_to_users (u ∷ us) p = to_users (u ∷ us) p ∷ []

pub data Ack : Type 0 where
  sent : Ident → ℕ → ℕ → Ack
  done : Ack
  joined_room : Ident → Ack
  failed : ErrorCode → String → Ack

-- `errAck`
unfoldable pub err_ack : Error → Ack
err_ack (app e) = failed e.code e.message
err_ack (known_request _) = failed ErrorCode.internal "처리 중 오류가 발생했습니다."
err_ack thrown = failed ErrorCode.internal "처리 중 오류가 발생했습니다."

abbrev pub is_active_of : Ident → RoomMember → Bool
is_active_of user m = m.user_id == user && not (is_some m.left_at)

-- The rooms that the user is in.
abbrev pub rooms_of : Ident → World → List Ident
rooms_of user w = map (λ (m : RoomMember). m.room_id) (select (is_active_of user) w.members)

abbrev pub is_co_member : List Ident → Ident → RoomMember → Bool
is_co_member rooms user m =
    (contains rooms m.room_id && not (is_some m.left_at)) && not (m.user_id == user)

abbrev ids_of : List RoomMember → List Ident
ids_of ms = map (λ (m : RoomMember). m.user_id) ms

abbrev pub co_members_in : Ident → List Ident → World → List Ident
co_members_in user [] w = []
co_members_in user (r ∷ rs) w = dedup (ids_of (select (is_co_member (r ∷ rs) user) w.members))

-- `coMemberIds`
unfoldable pub co_member_ids : Ident → World → List Ident
co_member_ids user w = co_members_in user (rooms_of user w) w
