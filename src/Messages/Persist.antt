-- ===== src/Messages/Persist.antt =====
-- src/messages/messages.service.ts: the insert of a message under the unique constraints of the
-- schema, with its retries, and the serialization of a stored message.
pub mod Retries
pub mod Order
pub mod Unique
use intaektok_be.Prelude.{
  ℕ, zero, suc, Bool, false, not, ◌&&◌, ◌||◌, Option, none, some, List, ◌∷◌, Ident, ◌==◌,
  if◌then◌else◌, find, opt_eq, is_some,
}
use intaektok_be.Prisma.{Message}
use intaektok_be.Common.Errors.{conflict}
use intaektok_be.Common.Views.{SerializedMessage}
use intaektok_be.World.{World, ok, Call, pure, throw, ◌>>=◌, ◌>>◌, modify}
use intaektok_be.Env.{Env}
use intaektok_be.Messages.Seq.{has_seq, next_seq, resync_seq}
use intaektok_be.Messages.Checks.{CreateMessageParams}

-- `!!m.deletedAt`
abbrev pub hide {ℓ} : {A : Type ℓ} → Option ℕ → Option A → Option A
hide none a = a
hide (some _) _ = none

unfoldable pub serialize : Message → SerializedMessage
serialize m = record {
  id = m.id;
  room_id = m.room_id;
  sender_id = m.sender_id;
  seq = m.seq;
  kind = m.kind;
  content = hide m.deleted_at m.content;
  media_id = hide m.deleted_at m.media_id;
  reply_to_id = m.reply_to_id;
  client_message_id = m.client_message_id;
  created_at = m.created_at;
  edited_at = m.edited_at;
  deleted_at = m.deleted_at;
  read_count = none;
}

-- `findUnique` on the key of a room and a client message id, which is null in no key.
abbrev pub has_client_id : Ident → Option Ident → Message → Bool
has_client_id room none m = false
has_client_id room (some c) m = m.room_id == room && opt_eq m.client_message_id (some c)

abbrev pub find_client_id : Ident → Option Ident → World → Option Message
find_client_id room c w = find (has_client_id room c) w.messages

-- The reply to an insert: the row, or the constraint that it violates.
pub data Inserted : Type 0 where
  created : Message → Inserted
  client_id_taken seq_taken : Inserted

abbrev pub insert_reply : Env → Message → List Message → Inserted
insert_reply env m ms =
    let c = is_some (find (has_client_id m.room_id m.client_message_id) ms) in
    let s = is_some (find (has_seq m.room_id m.seq) ms) in
    if s && (env.names_seq || not c) then seq_taken else if c then client_id_taken else created m

abbrev pub row_of : Env → CreateMessageParams → ℕ → World → Message
row_of env p n w = record {
  id = env.cuid w.issued;
  room_id = p.room_id;
  sender_id = p.sender_id;
  seq = n;
  kind = p.kind;
  content = p.content;
  media_id = p.media_id;
  reply_to_id = p.reply_to_id;
  client_message_id = p.client_message_id;
  created_at = w.now;
  edited_at = none;
  deleted_at = none;
}

abbrev pub add_message : Message → World → World
add_message m w = record w { messages = m ∷ w.messages; issued = suc w.issued }

-- `prisma.message.create` under the unique constraints of the schema.
unfoldable pub insert_message : Env → CreateMessageParams → ℕ → Call Inserted
insert_message env p n w =
    let m = row_of env p n w in
    elim (insert_reply env m w.messages) [
      | created row ↦ (ok (created row), add_message row w)
      | client_id_taken ↦ (ok client_id_taken, w)
      | seq_taken ↦ (ok seq_taken, w)
    ]

-- `SEQ_RETRY`
abbrev pub seq_retry : ℕ
seq_retry = 3

-- How an attempt ends, by the reply to its insert and what a further attempt does.
abbrev pub after_reply : Ident → Call (Option Message) → Inserted → Call (Option Message)
after_reply room again (created m) = pure (some m)
after_reply room again client_id_taken = pure none
after_reply room again seq_taken = resync_seq room >> again

abbrev pub insert_next : Env → CreateMessageParams → ℕ → ℕ → Call Inserted
insert_next env p left n = do modify (env.others left); insert_message env p n

-- The loop over the attempts, by those that remain.
unfoldable pub persist_attempts : Env → CreateMessageParams → ℕ → Call (Option Message)
persist_attempts env p zero = throw (conflict "메시지 시퀀스 발급에 실패했습니다.")
persist_attempts env p (suc left) = do
  n ← next_seq p.room_id
  reply ← insert_next env p left n
  after_reply p.room_id (persist_attempts env p left) reply

unfoldable pub persist_with_seq : Env → CreateMessageParams → Call (Option Message)
persist_with_seq env p = persist_attempts env p seq_retry
