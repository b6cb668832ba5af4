-- ===== src/Api/Messages.antt =====
-- src/messages/messages.controller.ts
use intaektok_be.Prelude.{ℕ, Option, false, Ident, Text}
use intaektok_be.Prisma.{MessageType}
use intaektok_be.Common.Views.{SerializedMessage}
use intaektok_be.World.{Call, pure, ◌>>=◌}
use intaektok_be.Messages.Checks.{CreateMessageParams}
use intaektok_be.Messages.Create.{create_message}
use intaektok_be.Messages.Read.{mark_read}
use intaektok_be.Messages.Unsend.{soft_delete}
use intaektok_be.Messages.History.{Paginated, Cursor, list_messages}
use intaektok_be.Api.{Server, CursorPaginationDto, or_default}

pub record SendMessageDto : Type 0 where
  pub client_message_id : Option Ident
  pub kind : MessageType
  pub content : Option Text
  pub media_id : Option Ident
  pub reply_to_id : Option Ident

pub record SentMessage : Type 0 where
  pub id : Ident
  pub seq : ℕ
  pub created_at : ℕ

unfoldable pub list : Ident → CursorPaginationDto Cursor → Call (Paginated SerializedMessage)
list room q = list_messages room q.cursor (or_default q.limit 50)

abbrev pub send_params : Ident → Ident → SendMessageDto → CreateMessageParams
send_params room user dto = record {
  room_id = room;
  sender_id = user;
  kind = dto.kind;
  content = dto.content;
  media_id = dto.media_id;
  reply_to_id = dto.reply_to_id;
  client_message_id = dto.client_message_id;
  is_system = false;
}

unfoldable pub send : Server → Ident → Ident → SendMessageDto → Call SentMessage
send s room user dto = do
  r ← create_message s.env (send_params room user dto)
  pure (record { id = r.message.id; seq = r.message.seq; created_at = r.message.created_at })

unfoldable pub remove : Server → Ident → Ident → Ident → Call (Unit {0})
remove s room message user = soft_delete s.env room message user

-- `lastReadSeq` is an integer from 0 on by its decorators.
unfoldable pub read : Ident → Ident → ℕ → Call (Unit {0})
read room user last_read_seq = mark_read room user last_read_seq
