-- ===== src/Messages/Unsend.antt =====
-- src/messages/messages.service.ts: `softDelete`.
pub mod Effect
use intaektok_be.Prelude.{
  ℕ, ◌+◌, ◌*◌, Bool, true, false, not, Option, none, some, Ident, ◌==◌, ltb, if◌then◌else◌, find,
  update_where, is_some,
}
use intaektok_be.Prisma.{Message, is_system}
use intaektok_be.Common.Errors.{forbidden, not_found}
use intaektok_be.Common.Events.{message_deleted}
use intaektok_be.World.{
  World, Call, pure, throw, gets, or_throw, ◌>>=◌, ◌>>◌, modify, emit, throw_if,
}
use intaektok_be.Env.{Env}
use intaektok_be.Messages.Checks.{get_active_member_ids, find_message, is_elsewhere}

-- `(Date.now() - createdAt) / 1000 > unsendWindowSec`
abbrev pub is_too_old : Env → Message → World → Bool
is_too_old env m w = ltb (m.created_at + 1000 * env.unsend_window_sec) w.now

abbrev pub unsent : ℕ → Message → Message
unsent now m = record m { deleted_at = some now; content = none; media_id = none }

-- The update of the row and the event.
abbrev pub unsend : Ident → Ident → Call (Unit {0})
unsend room id = do
  modify λ w. record w {
    messages = update_where (λ (m : Message). m.id == id) (unsent w.now) w.messages;
  }
  ids ← gets (get_active_member_ids room)
  emit (message_deleted (record { room_id = room; message_id = id; member_user_ids = ids }))

-- What follows the checks on the row itself.
abbrev pub unsend_in_time : Env → Ident → Message → Call (Unit {0})
unsend_in_time env room m = if is_some m.deleted_at then pure tt else (do
  old ← gets (is_too_old env m)
  throw_if old (forbidden "삭제 가능 시간이 지났습니다.")
  unsend room m.id)

unfoldable pub soft_delete : Env → Ident → Ident → Ident → Call (Unit {0})
soft_delete env room id requester = do
  found ← gets (find_message (some id))
  throw_if (is_elsewhere room found) (not_found "메시지를 찾을 수 없습니다.")
  m ← or_throw found (not_found "메시지를 찾을 수 없습니다.")
  throw_if (is_system m.kind) (forbidden "권한이 없습니다.")
  throw_if (not (m.sender_id == requester)) (forbidden "본인이 보낸 메시지만 삭제할 수 있습니다.")
  unsend_in_time env room m
