-- ===== src/Messages/Create/Idempotent.antt =====
-- On sending again with one client message id (src/messages/messages.service.ts).
use intaektok_be.Prelude.{
  ℕ, zero, suc, ◌≡◌, ◌≢◌, refl, subst, true, false, not, Option, none, some, Ident, arith,
  Option-cases, inl, inr,
}
use intaektok_be.Prisma.{Message}
use intaektok_be.World.{World, Result, ok, err, Call, pure, when, ◌>>=◌, ◌>>◌}
use intaektok_be.World.Keeps.{bind_rule}
use intaektok_be.Env.{Env}
use intaektok_be.Messages.Seq.{db_max_seq}
use intaektok_be.Messages.Seq.Fresh.{issued_seq, counting, next_seq_lem, resync_seq_lem}
use intaektok_be.Messages.Checks.{CreateMessageParams, check_params}
use intaektok_be.Messages.Persist.{
  serialize, find_client_id, insert_message, persist_attempts, persist_with_seq, seq_retry,
}
use intaektok_be.Messages.Create.{
  CreateMessageResult, touch_room, emit_created, finish, create_new, create_message, find_retry,
}
use intaektok_be.Messages.Create.Unique.{touch_room_keeps, emit_created_keeps}

module _ (env : Env) (p : CreateMessageParams) {c : Ident}
    (keyed : p.client_message_id ≡ some c) where
  -- A stored message is the one that its key finds.
  abbrev Found : Result (Option Message) × World → Type 0
  Found (ok (some m), w) = find_client_id p.room_id p.client_message_id w ≡ some m
  Found (ok none, w) = Unit {0}
  Found (err _, w) = Unit {0}

  persist_attempts-Found : (left : ℕ) (w : World) → Found (persist_attempts env p left w)
  unfolding persist_attempts insert_message
  persist_attempts-Found zero w = tt
  persist_attempts-Found (suc left) w =
      let n = issued_seq p.room_id w in
      let v = env.others left (counting p.room_id n w) in
      ground (
        arith,
        next_seq_lem p.room_id w,
        resync_seq_lem p.room_id v,
        persist_attempts-Found left (counting p.room_id (db_max_seq p.room_id v) v),
      )

  persist_Found : (w : World) → Found (persist_with_seq env p w)
  unfolding persist_with_seq
  persist_Found w = persist_attempts-Found seq_retry w

  -- What a call returns is the serialized message that its key finds.
  abbrev Kept : Result CreateMessageResult × World → Type 0
  Kept (ok r, w) =
      (m : Message) × (find_client_id p.room_id p.client_message_id w ≡ some m)
      × (r.message ≡ serialize m)
  Kept (err _, w) = Unit {0}

  finish-Kept : (o : Option Message) (w : World) → Found (ok o, w) → Kept (finish env p o w)
  unfolding finish
  finish-Kept none w h = elim (Option-cases (find_client_id p.room_id p.client_message_id w)) [
    | inl e ↦ rw e tt
    | inr (m, e) ↦ rw e (m, e, refl)
  ]
  finish-Kept (some m) w h =
      bind_rule Finds Kept (touch_room p.room_id m.created_at)
        (λ _. emit_created env (serialize m) p >> reply) w
        (cc (touch_room_keeps p.room_id m.created_at w))
        (λ _ v found.
          bind_rule Finds Kept (emit_created env (serialize m) p) (λ _. reply) v
            (cc (emit_created_keeps env (serialize m) p v)) (λ _ v' found'. (m, found', refl))
            (λ _ _ _. tt))
        (λ _ _ _. tt)
    where
      Finds : Result (Unit {0}) × World → Type 0
      Finds (_, v) = find_client_id p.room_id p.client_message_id v ≡ some m

      reply : Call CreateMessageResult
      reply = pure (record { message = serialize m; duplicate = false })

  create_new-Kept : (w : World) → Kept (create_new env p w)
  unfolding create_new
  create_new-Kept w =
      bind_rule (λ _. Unit {0}) Kept (when (not p.is_system) (check_params p))
        (λ _. persist_with_seq env p >>= finish env p) w tt
        (λ _ v _.
          bind_rule Found Kept (persist_with_seq env p) (finish env p) v (persist_Found v)
            (λ o v' found. finish-Kept o v' found) (λ _ _ _. tt))
        (λ _ _ _. tt)

  create_message-Kept : (w : World) → c ≢ 0 → Kept (create_message env p w)
  unfolding create_message
  create_message-Kept w ne = elim (Option-cases (find_retry p w)) [
    | inl e ↦ rw (e, create_message) (create_new-Kept w)
    | inr (m, e) ↦ rw (e, create_message) (m, ground arith, refl)
  ]

-- A message that was accepted under a client message id is returned to whoever sends with that id in
-- that room again, whatever else is sent; nothing is stored, and no event is emitted.
pub create_message_again :
    (env : Env) (p q : CreateMessageParams) (w w' : World) (r : CreateMessageResult) {c : Ident}
    → c ≢ 0
    → p.client_message_id ≡ some c
    → q.client_message_id ≡ some c
    → q.room_id ≡ p.room_id
    → create_message env p w ≡ (ok r, w')
    → create_message env q w' ≡ (ok (record { message = r.message; duplicate = true }), w')
unfolding create_message
create_message_again env p q w w' r ne kp kq room done =
    let (m, found, same) = subst (Kept env p kp) done (create_message-Kept env p kp w ne) in
    ground (arith, found, same)
