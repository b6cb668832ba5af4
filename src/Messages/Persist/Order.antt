-- ===== src/Messages/Persist/Order.antt =====
-- On the order of a room's messages under `persistWithSeq` (src/messages/messages.service.ts).
use intaektok_be.Prelude.{
  ℕ, suc, ◌<◌, ◌≡◌, refl, Option, none, some, List, [], ◌∷◌, Ident, find, arith, All, ◌≤◌, ◌↔◌,
  Bool, true, is_some, Bool-cases, inl, inr, subst,
}
use intaektok_be.Prisma.{Message}
use intaektok_be.World.{World, ok}
use intaektok_be.Env.{Env}
use intaektok_be.Messages.Seq.{max_seq, db_max_seq, has_seq}
use intaektok_be.Messages.Checks.{CreateMessageParams}
use intaektok_be.Messages.Persist.{find_client_id, row_of, persist_with_seq}
use intaektok_be.Messages.Persist.Retries.{Quiet, final_seq, persist_with_seq_quiet}

-- Every message of the room has a number below `n`.
abbrev pub Precede : Ident → ℕ → List Message → Type 0
Precede room n = All (λ m. m.room_id ≡ room → m.seq < n)

Precede-max : (room n : ℕ) (ms : List Message) → max_seq room ms < n → Precede room n ms
Precede-max room n [] h = tt
Precede-max room n (m ∷ ms) h = (λ e. ground arith, Precede-max room n ms (ground arith))

-- Conversely, if there is a message or the number is not 0.
max-Precede : (room n : ℕ) (ms : List Message) → 0 < n → Precede room n ms → max_seq room ms < n
max-Precede room n [] pos h = pos
max-Precede room n (m ∷ ms) pos h = ground (arith, h.0, max-Precede room n ms pos h.1)

-- The counter is missing, or at least the largest number of the room's messages.
abbrev pub IsCaughtUp : Ident → World → Type 0
IsCaughtUp room w = (c : ℕ) → w.counter room ≡ some c → db_max_seq room w ≤ c

module _ (env : Env) (p : CreateMessageParams) where
  -- With no other request in between and no message of the same client message id: where the counter
  -- in Redis has not fallen behind the database, the message is stored after every earlier message of
  -- its room, and the counter has not fallen behind afterwards.
  pub persist_with_seq-Precede :
      (w : World)
      → Quiet env p
      → find_client_id p.room_id p.client_message_id w ≡ none
      → IsCaughtUp p.room_id w
      → (m : Message) × (w' : World) × (persist_with_seq env p w ≡ (ok (some m), w'))
        × (w'.messages ≡ m ∷ w.messages)
        × Precede p.room_id m.seq w.messages
        × IsCaughtUp p.room_id w'
  persist_with_seq-Precede w q c up =
      let (w', done, stored, counted, _) = persist_with_seq_quiet env p w q c in
      let n = final_seq env p w in
      let above : db_max_seq p.room_id w < n = final_above (w.counter p.room_id) refl in
      (row_of env p n w, w', done, stored, Precede-max p.room_id n w.messages above, ground (arith))
    where
      final_above :
          (o : Option ℕ) → w.counter p.room_id ≡ o → db_max_seq p.room_id w < final_seq env p w
      final_above none e = ground arith
      final_above (some k) e = ground (arith, up k)

  -- With no other request in between and no message of the same client message id: where the counter
  -- has fallen behind the database, the message is stored, and it is stored after every earlier message
  -- of its room exactly if the number that the counter issues is taken already.
  pub persist_out_of_order :
      (w : World) {k : ℕ}
      → Quiet env p
      → find_client_id p.room_id p.client_message_id w ≡ none
      → w.counter p.room_id ≡ some k
      → k < db_max_seq p.room_id w
      → (m : Message) × (w' : World) × (persist_with_seq env p w ≡ (ok (some m), w'))
        × (w'.messages ≡ m ∷ w.messages)
        × (Precede p.room_id m.seq w.messages
            ↔ (is_some (find (has_seq p.room_id (suc k)) w.messages) ≡ true))
  persist_out_of_order w {k} q c e behind =
      let (w', done, stored, _, _) = persist_with_seq_quiet env p w q c in
      (row_of env p (final_seq env p w) w, w', done, stored, (taken, above))
    where
      is_taken : Bool
      is_taken = is_some (find (has_seq p.room_id (suc k)) w.messages)

      above : is_taken ≡ true → Precede p.room_id (final_seq env p w) w.messages
      above t = Precede-max p.room_id (final_seq env p w) w.messages (ground (arith, e, t))

      taken : Precede p.room_id (final_seq env p w) w.messages → is_taken ≡ true
      taken h = elim (Bool-cases is_taken) [
        | inl t ↦ t
        | inr f ↦
            let n : final_seq env p w ≡ suc k = ground (arith, e, f) in
            let m =
              max-Precede p.room_id (suc k) w.messages (omega arith)
                (subst (λ i. Precede p.room_id i w.messages) n h) in
            absurd (omega (arith, m, behind))
      ]
