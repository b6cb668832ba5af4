-- ===== src/Messages/Create.antt =====
-- src/messages/messages.service.ts: `createMessage`, the one place where messages are persisted,
-- and `createSystemMessage`.
pub mod Unique
pub mod Idempotent
pub mod Frame
use intaektok_be.Prelude.{
  ℕ, Bool, true, false, not, Option, none, some, Ident, Text, ◌==◌, if◌then◌else◌, find,
  update_where, truthy, is_some, codes,
}
use intaektok_be.Prisma.{system, Message, Room, Profile, is_group}
use intaektok_be.Common.Errors.{thrown, known_request}
use intaektok_be.Common.Views.{SerializedMessage}
use intaektok_be.Common.Events.{message_created}
use intaektok_be.World.{World, ok, err, Call, pure, throw, gets, or_throw, ◌>>=◌, ◌>>◌, when, emit}
use intaektok_be.Env.{Env}
use intaektok_be.Messages.SystemMessage.{SystemMessagePayload}
use intaektok_be.Messages.Preview.{message_preview}
use intaektok_be.Messages.Checks.{CreateMessageParams, get_active_member_ids, check_params}
use intaektok_be.Messages.Persist.{serialize, persist_with_seq, find_client_id}

pub record CreateMessageResult : Type 0 where
  pub message : SerializedMessage
  pub duplicate : Bool

-- `prisma.room.update` of `lastMessageAt`; a missing row is the error P2025.
unfoldable pub touch_room : Ident → ℕ → Call (Unit {0})
touch_room room at w =
    if is_some (find (λ (r : Room). r.id == room) w.rooms)
    then (
      ok tt,
      record w {
        rooms =
            update_where (λ (r : Room). r.id == room)
              (λ (r : Room). record r { last_message_at = some at }) w.rooms;
      },
    )
    else (err (known_request 2025), w)

abbrev pub or_text : Option Text → Text → Text
or_text none t = t
or_text (some s) t = s

abbrev pub nickname_of : Option Profile → Option Text
nickname_of none = none
nickname_of (some p) = some p.nickname

-- The title of a push: the room's name in a group, else the sender's nickname.
abbrev pub room_title : Option Room → Option Profile → Text
room_title none profile = or_text (nickname_of profile) (codes "메시지")
room_title (some r) profile =
    if is_group r.kind
    then or_text r.name (codes "그룹 채팅")
    else or_text (nickname_of profile) (codes "메시지")

unfoldable pub emit_created : Env → SerializedMessage → CreateMessageParams → Call (Unit {0})
emit_created env dto p = do
  ids ← gets (get_active_member_ids p.room_id)
  room ← gets (λ w. find (λ (r : Room). r.id == p.room_id) w.rooms)
  profile ← gets (λ w. find (λ (q : Profile). q.user_id == p.sender_id) w.profiles)
  preview ← or_throw (message_preview env dto.kind dto.content) thrown
  emit (
      message_created (record {
        message = dto;
        member_user_ids = ids;
        preview = preview;
        room_title = room_title room profile;
      }))

-- The row that won the race for a client message id; `existing!` fails where there is none.
abbrev pub raced : Option Message → Call CreateMessageResult
raced none = throw thrown
raced (some m) = pure (record { message = serialize m; duplicate = true })

-- What follows the insert.
unfoldable pub finish : Env → CreateMessageParams → Option Message → Call CreateMessageResult
finish env p none = do
  existing ← gets (find_client_id p.room_id p.client_message_id)
  raced existing
finish env p (some m) = do
  touch_room p.room_id m.created_at
  emit_created env (serialize m) p
  pure (record { message = serialize m; duplicate = false })

-- The path of a message that is not known to be a retry.
unfoldable pub create_new : Env → CreateMessageParams → Call CreateMessageResult
create_new env p = do
  when (not p.is_system) (check_params p)
  persisted ← persist_with_seq env p
  finish env p persisted

-- `params.clientMessageId` is looked up only where it is not empty.
abbrev pub find_retry : CreateMessageParams → World → Option Message
find_retry p w =
    if truthy p.client_message_id then find_client_id p.room_id p.client_message_id w else none

unfoldable pub create_message : Env → CreateMessageParams → Call CreateMessageResult
create_message env p w = elim (find_retry p w) [
  | some m ↦ (ok (record { message = serialize m; duplicate = true }), w)
  | none ↦ create_new env p w
]

abbrev pub system_params : Env → Ident → Ident → SystemMessagePayload → CreateMessageParams
system_params env room actor payload = record {
  room_id = room;
  sender_id = actor;
  kind = system;
  content = some (env.stringify payload);
  media_id = none;
  reply_to_id = none;
  client_message_id = none;
  is_system = true;
}

unfoldable pub create_system_message :
    Env → Ident → Ident → SystemMessagePayload → Call SerializedMessage
create_system_message env room actor payload = do
  r ← create_message env (system_params env room actor payload)
  pure r.message
