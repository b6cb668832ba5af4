-- ===== src/Messages/Persist/Unique.antt =====
-- On the unique keys of messages under `persistWithSeq` (src/messages/messages.service.ts).
use intaektok_be.Prelude.{ℕ, zero, suc, ◌≡◌, none, List, [], ◌∷◌, find, arith}
use intaektok_be.Prisma.{Message}
use intaektok_be.World.{World}
use intaektok_be.Env.{Env}
use intaektok_be.Messages.Seq.{db_max_seq, has_seq}
use intaektok_be.Messages.Seq.Fresh.{issued_seq, counting, next_seq_lem, resync_seq_lem}
use intaektok_be.Messages.Checks.{CreateMessageParams}
use intaektok_be.Messages.Persist.{
  has_client_id, insert_message, persist_attempts, persist_with_seq, seq_retry,
}

-- `@@unique([roomId, seq])` and `@@unique([roomId, clientMessageId])`
abbrev pub UniqueKeys : List Message → Type 0
UniqueKeys [] = Unit {0}
UniqueKeys (m ∷ ms) =
    (find (has_seq m.room_id m.seq) ms ≡ none)
    × (find (has_client_id m.room_id m.client_message_id) ms ≡ none)
    × UniqueKeys ms

-- The other requests keep the unique keys.
abbrev pub OthersKeep : Env → Type 0
OthersKeep env =
    (left : ℕ) (w : World) → UniqueKeys w.messages → UniqueKeys (env.others left w).messages

module _ (env : Env) (p : CreateMessageParams) where
  insert_message-UniqueKeys :
      (n : ℕ) (w : World) → UniqueKeys w.messages → UniqueKeys (insert_message env p n w).1.messages
  unfolding insert_message
  insert_message-UniqueKeys n w u = ground arith

  persist_attempts-UniqueKeys :
      (left : ℕ) (w : World)
      → OthersKeep env
      → UniqueKeys w.messages
      → UniqueKeys (persist_attempts env p left w).1.messages
  unfolding persist_attempts
  persist_attempts-UniqueKeys zero w k u = u
  persist_attempts-UniqueKeys (suc left) w k u =
      let n = issued_seq p.room_id w in
      let v = env.others left (counting p.room_id n w) in
      let v' = (insert_message env p n v).1 in
      ground (
        arith,
        next_seq_lem p.room_id w,
        k left (counting p.room_id n w) u,
        insert_message-UniqueKeys n v,
        resync_seq_lem p.room_id v',
        persist_attempts-UniqueKeys left (counting p.room_id (db_max_seq p.room_id v') v') k,
      )

  pub persist_with_seq-UniqueKeys :
      (w : World)
      → OthersKeep env
      → UniqueKeys w.messages
      → UniqueKeys (persist_with_seq env p w).1.messages
  unfolding persist_with_seq
  persist_with_seq-UniqueKeys w k u = persist_attempts-UniqueKeys seq_retry w k u
