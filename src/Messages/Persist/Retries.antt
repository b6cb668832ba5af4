-- ===== src/Messages/Persist/Retries.antt =====
-- On the retries of `persistWithSeq` (src/messages/messages.service.ts).
use intaektok_be.Prelude.{
  ℕ, suc, ◌≡◌, refl, inl, inr, none, some, ◌∷◌, find, if◌then◌else◌, ◌∙◌, is_some, arith,
  Option-cases,
}
use intaektok_be.Prisma.{Message}
use intaektok_be.World.{World, ok}
use intaektok_be.Env.{Env}
use intaektok_be.Messages.Seq.{db_max_seq, has_seq}
use intaektok_be.Messages.Seq.Fresh.{
  issued_seq, counting, next_seq_lem, resync_seq_lem, find-has_seq_above,
}
use intaektok_be.Messages.Checks.{CreateMessageParams}
use intaektok_be.Messages.Persist.{
  created, seq_taken, find_client_id, row_of, add_message, insert_message, persist_attempts,
  persist_with_seq,
}

module _ (env : Env) (p : CreateMessageParams) where
  pub insert_message_free :
      (n : ℕ) (w : World)
      → find_client_id p.room_id p.client_message_id w ≡ none
      → find (has_seq p.room_id n) w.messages ≡ none
      → insert_message env p n w
        ≡ (ok (created (row_of env p n w)), add_message (row_of env p n w) w)
  unfolding insert_message
  insert_message_free n w c s = ground arith

  pub insert_message_seq :
      (n : ℕ) (w : World) {m : Message}
      → find_client_id p.room_id p.client_message_id w ≡ none
      → find (has_seq p.room_id n) w.messages ≡ some m
      → insert_message env p n w ≡ (ok seq_taken, w)
  unfolding insert_message
  insert_message_seq n w c s = ground arith

  -- No other request commits while the message waits.
  abbrev pub Quiet : Type 0
  Quiet = (left : ℕ) (w : World) → env.others left w ≡ w

  attempt_free :
      (left n : ℕ) (w : World)
      → Quiet
      → issued_seq p.room_id w ≡ n
      → find_client_id p.room_id p.client_message_id w ≡ none
      → find (has_seq p.room_id n) w.messages ≡ none
      → persist_attempts env p (suc left) w
        ≡ (ok (some (row_of env p n w)), add_message (row_of env p n w) (counting p.room_id n w))
  unfolding persist_attempts
  attempt_free left n w q e c s =
      let v = counting p.room_id n w in
      ground (arith, next_seq_lem p.room_id w, q left v, insert_message_free n v c s)

  attempt_taken :
      (left : ℕ) (w : World) {m : Message}
      → Quiet
      → find_client_id p.room_id p.client_message_id w ≡ none
      → find (has_seq p.room_id (issued_seq p.room_id w)) w.messages ≡ some m
      → persist_attempts env p (suc left) w
        ≡ persist_attempts env p left (
            counting p.room_id
              (db_max_seq p.room_id w)
              (counting p.room_id (issued_seq p.room_id w) w))
  unfolding persist_attempts
  attempt_taken left w q c s =
      let n = issued_seq p.room_id w in
      let v = counting p.room_id n w in
      ground (
        arith,
        next_seq_lem p.room_id w,
        q left v,
        insert_message_seq n v c s,
        resync_seq_lem p.room_id v,
      )

  -- The number that a message gets: the one that the counter issues, or one above the maximum of the
  -- room's messages where a message has that number.
  abbrev pub final_seq : World → ℕ
  final_seq w =
      if is_some (find (has_seq p.room_id (issued_seq p.room_id w)) w.messages)
      then suc (db_max_seq p.room_id w)
      else issued_seq p.room_id w

  -- With no other request in between and no message of the same client message id, `persistWithSeq`
  -- stores the message at once or after one resynchronisation, whatever the counter was.
  pub persist_with_seq_quiet :
      (w : World)
      → Quiet
      → find_client_id p.room_id p.client_message_id w ≡ none
      → let m = row_of env p (final_seq w) w in
        (w' : World) × (persist_with_seq env p w ≡ (ok (some m), w'))
        × (w'.messages ≡ m ∷ w.messages)
        × (w'.counter p.room_id ≡ some m.seq)
        × (find (has_seq p.room_id m.seq) w.messages ≡ none)
  unfolding persist_with_seq
  persist_with_seq_quiet w q c =
      elim (Option-cases (find (has_seq p.room_id (issued_seq p.room_id w)) w.messages)) [
        | inl free ↦ rw free (_, attempt_free 2 _ w q refl c free, refl, ground arith, free)
        | inr (m, taken) ↦
            let n = suc (db_max_seq p.room_id w) in
            let fresh = find-has_seq_above p.room_id n w.messages (omega arith) in
            rw taken (
              _,
              attempt_taken 2 w q c taken ∙ attempt_free 1 n _ q (ground arith) c fresh,
              refl,
              ground arith,
              fresh,
            )
      ]
