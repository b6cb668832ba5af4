-- ===== src/Common/Events.antt =====
-- src/common/events.ts: the domain events that services emit and that the gateway and the push
-- service subscribe to.
use intaektok_be.Prelude.{ℕ, List, Ident, Text}
use intaektok_be.Common.Views.{SerializedMessage, RoomView}

pub record MessageCreatedEvent : Type 0 where
  pub message : SerializedMessage
  pub member_user_ids : List Ident
  pub preview : Text
  pub room_title : Text

pub record MessageReadEvent : Type 0 where
  pub room_id : Ident
  pub user_id : Ident
  pub last_read_seq : ℕ
  pub member_user_ids : List Ident

pub record MessageDeletedEvent : Type 0 where
  pub room_id : Ident
  pub message_id : Ident
  pub member_user_ids : List Ident

pub record RoomLifecycleEvent : Type 0 where
  pub room : RoomView
  pub room_id : Ident
  pub member_user_ids : List Ident

-- A constructor for each name in `DomainEvents`, with its payload.
pub data Event : Type 0 where
  message_created : MessageCreatedEvent → Event
  message_read : MessageReadEvent → Event
  message_deleted : MessageDeletedEvent → Event
  room_created room_updated : RoomLifecycleEvent → Event
  session_revoked : Ident → Event
