-- ===== src/Realtime/Handlers.antt =====
-- src/realtime/realtime.gateway.ts: the handlers of what a socket asks for, and of the domain events.
use intaektok_be.Prelude.{
  ℕ, Bool, false, not, Option, List, [], ◌∷◌, Ident, Text, ◌==◌, if◌then◌else◌, select,
}
use intaektok_be.Prisma.{MessageType}
use intaektok_be.Common.ErrorCode.{ErrorCode}
use intaektok_be.Common.Events.{
  Event, message_created, message_read, message_deleted, room_created, room_updated,
  session_revoked,
}
use intaektok_be.World.{World, Result, ok, err}
use intaektok_be.Env.{Env}
use intaektok_be.Messages.Checks.{
  CreateMessageParams, find_member, is_absent, get_active_member_ids,
}
use intaektok_be.Messages.Create.{CreateMessageResult, create_message}
use intaektok_be.Messages.Read.{mark_read}
use intaektok_be.Messages.Unsend.{soft_delete}
use intaektok_be.Realtime.Socket.{Client, Packet, Send, Ack, emit_to_users, err_ack}

pub record SendPayload : Type 0 where
  pub client_message_id : Option Ident
  pub room_id : Ident
  pub kind : MessageType
  pub content : Option Text
  pub media_id : Option Ident
  pub reply_to_id : Option Ident

abbrev pub ack_of_send : Result CreateMessageResult → Ack
ack_of_send (ok r) = Ack.sent r.message.id r.message.seq r.message.created_at
ack_of_send (err e) = err_ack e

abbrev pub ack_of : Result (Unit {0}) → Ack
ack_of (ok _) = Ack.done
ack_of (err e) = err_ack e

abbrev pub payload_params : Ident → SendPayload → CreateMessageParams
payload_params user body = record {
  room_id = body.room_id;
  sender_id = user;
  kind = body.kind;
  content = body.content;
  media_id = body.media_id;
  reply_to_id = body.reply_to_id;
  client_message_id = body.client_message_id;
  is_system = false;
}

unfoldable pub on_send : Env → Ident → SendPayload → World → Ack × World
on_send env user body w =
    let (r, w') = create_message env (payload_params user body) w in (ack_of_send r, w')

-- `Number(body.lastReadSeq)`, where it is a natural number.
unfoldable pub on_read : Ident → Ident → ℕ → World → Ack × World
on_read user room last_read_seq w =
    let (r, w') = mark_read room user last_read_seq w in (ack_of r, w')

unfoldable pub on_delete : Env → Ident → Ident → Ident → World → Ack × World
on_delete env user room message w =
    let (r, w') = soft_delete env room message user w in (ack_of r, w')

unfoldable pub on_room_join : Client → Ident → Ident → World → Ack × Client
on_room_join client user room w =
    if is_absent (find_member room user w)
    then (Ack.failed ErrorCode.forbidden "방 멤버가 아닙니다.", client)
    else (Ack.joined_room room, record client { joined = room ∷ client.joined })

-- `relayTyping`, for `typing:start` and `typing:stop`
unfoldable pub relay_typing : Ident → Ident → Bool → World → List Send
relay_typing user room is_typing w =
    if is_absent (find_member room user w)
    then []
    else emit_to_users (select (λ u. not (u == user)) (get_active_member_ids room w))
        (Packet.typing room user is_typing)

-- The handlers of the domain events, the single broadcaster.
unfoldable pub on_event : Event → List Send
on_event (message_created e) = emit_to_users e.member_user_ids (Packet.message_new e.message)
on_event (message_read e) =
    emit_to_users e.member_user_ids (Packet.message_read e.room_id e.user_id e.last_read_seq)
on_event (message_deleted e) =
    emit_to_users e.member_user_ids (Packet.message_deleted e.room_id e.message_id)
on_event (room_created e) = emit_to_users e.member_user_ids (Packet.room_created e.room)
on_event (room_updated e) = emit_to_users e.member_user_ids (Packet.room_updated e.room)
on_event (session_revoked user) = Send.disconnect_user user ∷ []
