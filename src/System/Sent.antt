-- ===== src/System/Sent.antt =====
-- On where the message of a successful `createMessage` (src/messages/messages.service.ts) is stored.
use intaektok_be.Prelude.{
  ℕ, zero, suc, true, false, not, Option, none, some, Ident, truthy, In, find-In, find-holds, ◌≡◌,
  refl, sym, subst, arith, Bool-cases, inl, inr,
}
use intaektok_be.Prisma.{Message}
use intaektok_be.World.{World, Result, ok, err, Call, pure, when, ◌>>=◌, ◌>>◌}
use intaektok_be.World.Keeps.{bind_rule}
use intaektok_be.Env.{Env}
use intaektok_be.Messages.Seq.{next_seq, resync_seq}
use intaektok_be.Messages.Checks.{CreateMessageParams, check_params}
use intaektok_be.Messages.Persist.{
  Inserted, created, client_id_taken, seq_taken, has_client_id, find_client_id, serialize,
  insert_reply, row_of, add_message, insert_message, insert_next, after_reply, persist_attempts,
  persist_with_seq, seq_retry,
}
use intaektok_be.Messages.Create.{
  CreateMessageResult, raced, finish, create_new, find_retry, create_message, touch_room,
  emit_created,
}
use intaektok_be.Messages.Create.Unique.{touch_room_keeps, emit_created_keeps}

abbrev pub Any : {A : Type 0} → Result A × World → Type 0
Any _ = Unit {0}

client_row :
    (room : Ident) (c : Option Ident) (w : World) (m : Message)
    → find_client_id room c w ≡ some m
    → In m w.messages × (m.room_id ≡ room)
client_row room c w m e = (
  find-In (has_client_id room c) w.messages m e,
  of_key c (find-holds (has_client_id room c) w.messages m e),
)
  where
    of_key : (d : Option Ident) → has_client_id room d m ≡ true → m.room_id ≡ room
    of_key none h = absurd (ground (arith, h))
    of_key (some i) h = ground (arith, h)

retry_row :
    (p : CreateMessageParams) (w : World) (m : Message)
    → find_retry p w ≡ some m
    → In m w.messages × (m.room_id ≡ p.room_id)
retry_row p w m e = elim (Bool-cases (truthy p.client_message_id)) [
  | inl t ↦ client_row p.room_id p.client_message_id w m (ground (arith, t, e))
  | inr t ↦ absurd (ground (arith, t, e))
]

module _ (env : Env) (p : CreateMessageParams) where
  -- A row of the room.
  abbrev Row : Message → World → Type 0
  Row m v = In m v.messages × (m.room_id ≡ p.room_id)

  abbrev WasInserted : Result Inserted × World → Type 0
  WasInserted (ok (created m), v) = Row m v
  WasInserted _ = Unit {0}

  abbrev WasStored : Result (Option Message) × World → Type 0
  WasStored (ok (some m), v) = Row m v
  WasStored _ = Unit {0}

  -- The message that is returned is that of a row of the room.
  abbrev pub IsBacked : Result CreateMessageResult × World → Type 0
  IsBacked (ok r, v) =
      (m : Message) × In m v.messages × (m.room_id ≡ p.room_id) × (r.message ≡ serialize m)
  IsBacked (err _, v) = Unit {0}

  insert_message-WasInserted : (n : ℕ) (w : World) → WasInserted (insert_message env p n w)
  unfolding insert_message
  insert_message-WasInserted n w =
      by_reply (insert_reply env (row_of env p n w) w.messages) (λ row e. ground (arith, e))
    where
      by_reply :
          (r : Inserted)
          → ((row : Message) → r ≡ created row → row.room_id ≡ p.room_id)
          → WasInserted (elim r as (λ _. Result Inserted × World) [
            | created row ↦ (ok (created row), add_message row w)
            | client_id_taken ↦ (ok client_id_taken, w)
            | seq_taken ↦ (ok seq_taken, w)
          ])
      by_reply (created row) k = (inl refl, k row refl)
      by_reply client_id_taken k = tt
      by_reply seq_taken k = tt

  after_reply-WasStored :
      (again : Call (Option Message)) (r : Inserted) (v : World)
      → ((u : World) → WasStored (again u))
      → WasInserted (ok r, v)
      → WasStored (after_reply p.room_id again r v)
  after_reply-WasStored again (created m) v k h = h
  after_reply-WasStored again client_id_taken v k h = tt
  after_reply-WasStored again seq_taken v k h =
      bind_rule Any WasStored (resync_seq p.room_id) (λ _. again) v tt (λ _ u _. k u) (λ _ _ _. tt)

  persist_attempts-WasStored : (left : ℕ) (w : World) → WasStored (persist_attempts env p left w)
  unfolding persist_attempts
  persist_attempts-WasStored zero w = tt
  persist_attempts-WasStored (suc left) w =
      let again = persist_attempts env p left in
      let k = persist_attempts-WasStored left in
      bind_rule Any WasStored (next_seq p.room_id)
        (λ n. insert_next env p left n >>= after_reply p.room_id again) w tt
        (λ n v _.
          bind_rule WasInserted WasStored (insert_next env p left n) (after_reply p.room_id again) v
            (insert_message-WasInserted n (env.others left v))
            (λ r u i. after_reply-WasStored again r u k i) (λ _ _ _. tt))
        (λ _ _ _. tt)

  raced-IsBacked :
      (o : Option Message) (w : World)
      → find_client_id p.room_id p.client_message_id w ≡ o
      → IsBacked (raced o w)
  raced-IsBacked none w e = tt
  raced-IsBacked (some m) w e =
      let (i, r) = client_row p.room_id p.client_message_id w m e in (m, i, r, refl)

  finish-IsBacked :
      (o : Option Message) (w : World) → WasStored (ok o, w) → IsBacked (finish env p o w)
  unfolding finish
  finish-IsBacked none w h = raced-IsBacked (find_client_id p.room_id p.client_message_id w) w refl
  finish-IsBacked (some m) w (i, r) =
      bind_rule Holding IsBacked (touch_room p.room_id m.created_at)
        (λ _.
          emit_created env (serialize m) p
          >> pure (record { message = serialize m; duplicate = false }))
        w (subst (In m) (sym (touch_room_keeps p.room_id m.created_at w)) i)
        (λ _ v j.
          bind_rule Holding IsBacked (emit_created env (serialize m) p)
            (λ _. pure (record { message = serialize m; duplicate = false })) v
            (subst (In m) (sym (emit_created_keeps env (serialize m) p v)) j)
            (λ _ u l. (m, l, r, refl)) (λ _ _ _. tt))
        (λ _ _ _. tt)
    where
      Holding : Result (Unit {0}) × World → Type 0
      Holding (_, v) = In m v.messages

  create_new-IsBacked : (w : World) → IsBacked (create_new env p w)
  unfolding create_new persist_with_seq
  create_new-IsBacked w =
      bind_rule Any IsBacked (when (not p.is_system) (check_params p))
        (λ _. persist_with_seq env p >>= finish env p) w tt
        (λ _ v _.
          bind_rule WasStored IsBacked (persist_with_seq env p) (finish env p) v
            (persist_attempts-WasStored seq_retry v) (λ o u h. finish-IsBacked o u h) (λ _ _ _. tt))
        (λ _ _ _. tt)

  -- Whatever `createMessage` returns is a stored message of the room.
  pub create_message-IsBacked : (w : World) → IsBacked (create_message env p w)
  unfolding create_message
  create_message-IsBacked w = by_retry (find_retry p w) (λ m e. retry_row p w m e)
    where
      by_retry :
          (o : Option Message)
          → ((m : Message) → o ≡ some m → Row m w)
          → IsBacked (elim o as (λ _. Result CreateMessageResult × World) [
            | some m ↦ (ok (record { message = serialize m; duplicate = true }), w)
            | none ↦ create_new env p w
          ])
      by_retry none k = create_new-IsBacked w
      by_retry (some m) k = let (i, r) = k m refl in (m, i, r, refl)
