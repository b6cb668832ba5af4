-- ===== src/Common/Views.antt =====
-- The shapes that the services hand out: `SerializedMessage` of src/common/events.ts, and `RoomView`
-- and `MemberView` of src/rooms/rooms.service.ts. A number that JavaScript reads from a `BigInt`
-- stays a natural number (the program keeps `seq` far below 2^53); an ISO string of a time stays
-- the time.
use intaektok_be.Prelude.{ℕ, Option, List, Ident, Text}
use intaektok_be.Prisma.{RoomType, MemberRole, MessageType}

pub record SerializedMessage : Type 0 where
  pub id : Ident
  pub room_id : Ident
  pub sender_id : Ident
  pub seq : ℕ
  pub kind : MessageType
  pub content : Option Text
  pub media_id : Option Ident
  pub reply_to_id : Option Ident
  pub client_message_id : Option Ident
  pub created_at : ℕ
  pub edited_at : Option ℕ
  pub deleted_at : Option ℕ
  pub read_count : Option ℕ

pub record MemberView : Type 0 where
  pub user_id : Ident
  pub nickname : Option Text
  pub avatar_url : Option Text
  pub role : MemberRole

pub record LastMessage : Type 0 where
  pub seq : ℕ
  pub kind : MessageType
  pub preview : Text
  pub created_at : ℕ

pub record RoomView : Type 0 where
  pub id : Ident
  pub kind : RoomType
  pub name : Option Text
  pub avatar_url : Option Text
  pub created_by : Ident
  pub created_at : ℕ
  pub last_message_at : Option ℕ
  pub members : List MemberView
  pub last_message : Option LastMessage
  pub unread_count : ℕ
