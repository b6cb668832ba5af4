-- ===== src/Messages/Create/Frame.antt =====
-- On what `createMessage` (src/messages/messages.service.ts) leaves alone: properties of the state that
-- do not look at the messages, the counters, the events or the times of rooms.
use intaektok_be.Prelude.{
  ℕ, zero, suc, subst, sym, Bool, true, false, not, Option, none, some, ◌∷◌, Ident, Text, ◌==◌,
  update_where, find, is_some, if◌then◌else◌,
}
use intaektok_be.Prisma.{Profile, Room, Message}
use intaektok_be.Common.Errors.{thrown}
use intaektok_be.Messages.Preview.{message_preview}
use intaektok_be.Common.Views.{SerializedMessage}
use intaektok_be.Common.Events.{Event, message_created}
use intaektok_be.World.{World, Result, ok, Call, pure, emit, when, or_throw, ◌>>=◌, ◌>>◌}
use intaektok_be.World.Keeps.{Keeps, bind-Keeps, when-Keeps, or_throw-Keeps}
use intaektok_be.Env.{Env}
use intaektok_be.Messages.SystemMessage.{SystemMessagePayload}
use intaektok_be.Messages.Seq.{next_seq, resync_seq}
use intaektok_be.Messages.Seq.Fresh.{next_seq_lem, resync_seq_lem}
use intaektok_be.Messages.Checks.{CreateMessageParams, check_params, get_active_member_ids}
use intaektok_be.Messages.Checks.Reads.{check_params_keeps}
use intaektok_be.Messages.Persist.{
  insert_reply, row_of, find_client_id, Inserted, created, client_id_taken, seq_taken, serialize,
  add_message, insert_message, after_reply, insert_next, persist_attempts, persist_with_seq,
  seq_retry,
}
use intaektok_be.Messages.Create.{
  CreateMessageResult, raced, room_title, system_params, touch_room, emit_created, finish,
  create_new, find_retry, create_message, create_system_message,
}

pub record Frame (env : Env) (P : World → Type 0) : Type 0 where
  pub counter : (w : World) (c : Ident → Option ℕ) → P w → P (record w { counter = c })
  pub message : (w : World) (m : Message) → P w → P (add_message m w)
  pub rooms :
      (w : World) (room : Ident) (at : ℕ)
      → P w
      → P (record w {
        rooms =
            update_where
              (λ (r : Room). r.id == room)
              (λ (r : Room). record r { last_message_at = some at })
              w.rooms;
      })
  pub event : (w : World) (e : Event) → P w → P (record w { events = e ∷ w.events })
  pub others : (left : ℕ) (w : World) → P w → P (env.others left w)

module _ (env : Env) (P : World → Type 0) (F : Frame env P) where
  next_seq-Keeps : (room : Ident) → Keeps P (next_seq room)
  next_seq-Keeps room w h = rw (next_seq_lem room w) (F.counter w _ h)

  resync_seq-Keeps : (room : Ident) → Keeps P (resync_seq room)
  resync_seq-Keeps room w h = rw (resync_seq_lem room w) (F.counter w _ h)

  inserted :
      (r : Inserted) (w : World)
      → P w
      → P (
          (elim r as (λ _. Result Inserted × World) [
            | created row ↦ (ok (created row), add_message row w)
            | client_id_taken ↦ (ok client_id_taken, w)
            | seq_taken ↦ (ok seq_taken, w)
          ]).1)
  inserted (created row) w h = F.message w row h
  inserted client_id_taken w h = h
  inserted seq_taken w h = h

  insert_message-Keeps : (p : CreateMessageParams) (n : ℕ) → Keeps P (insert_message env p n)
  unfolding insert_message
  insert_message-Keeps p n w h = inserted (insert_reply env (row_of env p n w) w.messages) w h

  after_reply-Keeps :
      (room : Ident) (again : Call (Option Message)) (r : Inserted)
      → Keeps P again
      → Keeps P (after_reply room again r)
  after_reply-Keeps room again (created m) k w h = h
  after_reply-Keeps room again client_id_taken k w h = h
  after_reply-Keeps room again seq_taken k w h =
      bind-Keeps P (resync_seq room) (λ _. again) (resync_seq-Keeps room) (λ _. k) w h

  persist_attempts-Keeps :
      (p : CreateMessageParams) (left : ℕ) → Keeps P (persist_attempts env p left)
  unfolding persist_attempts
  persist_attempts-Keeps p zero w h = h
  persist_attempts-Keeps p (suc left) w h =
      let again = persist_attempts env p left in
      let k = persist_attempts-Keeps p left in
      bind-Keeps P (next_seq p.room_id)
        (λ n. insert_next env p left n >>= after_reply p.room_id again) (next_seq-Keeps p.room_id)
        (λ n.
          bind-Keeps P (insert_next env p left n) (after_reply p.room_id again)
            (λ v i. insert_message-Keeps p n (env.others left v) (F.others left v i))
            (λ r. after_reply-Keeps p.room_id again r k))
        w h

  either :
      (b : Bool) (x y : Result (Unit {0}) × World)
      → P x.1
      → P y.1
      → P ((if◌then◌else◌ {A = Result (Unit {0}) × World} b x y).1)
  either true x y h k = h
  either false x y h k = k

  touch_room-Keeps : (room : Ident) (at : ℕ) → Keeps P (touch_room room at)
  unfolding touch_room
  touch_room-Keeps room at w h =
      either (is_some (find (λ (r : Room). r.id == room) w.rooms)) _ _ (F.rooms w room at h) h

  abbrev announce : SerializedMessage → CreateMessageParams → World → Text → Call (Unit {0})
  announce d p w preview = emit (
      message_created (record {
        message = d;
        member_user_ids = get_active_member_ids p.room_id w;
        preview = preview;
        room_title =
            room_title (find (λ (r : Room). r.id == p.room_id) w.rooms)
              (find (λ (q : Profile). q.user_id == p.sender_id) w.profiles);
      }))

  emit_created-Keeps :
      (d : SerializedMessage) (p : CreateMessageParams) → Keeps P (emit_created env d p)
  unfolding emit_created
  emit_created-Keeps d p w h =
      bind-Keeps P (or_throw (message_preview env d.kind d.content) thrown) (announce d p w)
        (or_throw-Keeps P _ thrown) (λ t v k. F.event v _ k) w h

  raced-Keeps : (o : Option Message) → Keeps P (raced o)
  raced-Keeps none w h = h
  raced-Keeps (some m) w h = h

  finish-Keeps : (p : CreateMessageParams) (o : Option Message) → Keeps P (finish env p o)
  unfolding finish
  finish-Keeps p none w h = raced-Keeps (find_client_id p.room_id p.client_message_id w) w h
  finish-Keeps p (some m) w h =
      bind-Keeps P (touch_room p.room_id m.created_at)
        (λ _.
          emit_created env (serialize m) p
          >> pure (record { message = serialize m; duplicate = false }))
        (touch_room-Keeps p.room_id m.created_at)
        (λ _.
          bind-Keeps P (emit_created env (serialize m) p)
            (λ _. pure (record { message = serialize m; duplicate = false }))
            (emit_created-Keeps (serialize m) p) (λ _ v k. k))
        w h

  create_new-Keeps : (p : CreateMessageParams) → Keeps P (create_new env p)
  unfolding create_new persist_with_seq
  create_new-Keeps p w h =
      bind-Keeps P (when (not p.is_system) (check_params p))
        (λ _. persist_with_seq env p >>= finish env p)
        (when-Keeps P _ _ (λ v k. subst P (sym (check_params_keeps p v)) k))
        (λ _.
          bind-Keeps P (persist_with_seq env p) (finish env p) (persist_attempts-Keeps p seq_retry)
            (finish-Keeps p))
        w h

  retried :
      (p : CreateMessageParams) (o : Option Message) (w : World)
      → P w
      → P (
          (elim o as (λ _. Result CreateMessageResult × World) [
            | some m ↦ (ok (record { message = serialize m; duplicate = true }), w)
            | none ↦ create_new env p w
          ]).1)
  retried p none w h = create_new-Keeps p w h
  retried p (some m) w h = h

  -- Sending a message keeps such a property.
  pub create_message-Keeps : (p : CreateMessageParams) → Keeps P (create_message env p)
  unfolding create_message
  create_message-Keeps p w h = retried p (find_retry p w) w h

  pub create_system_message-Keeps :
      (room actor : Ident) (payload : SystemMessagePayload)
      → Keeps P (create_system_message env room actor payload)
  unfolding create_system_message
  create_system_message-Keeps room actor payload w h =
      bind-Keeps P (create_message env (system_params env room actor payload)) (λ r. pure r.message)
        (create_message-Keeps _) (λ _ v k. k) w h
