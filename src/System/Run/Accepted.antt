-- ===== src/System/Run/Accepted.antt =====
-- On messages sent over src/messages/messages.controller.ts or src/realtime/realtime.gateway.ts, and
-- the history of their rooms ever after.
use intaektok_be.Prelude.{
  ℕ, suc, ◌<◌, Option, none, some, List, Ident, Text, In, length, ◌≡◌, refl, sym, subst, ap, ◌∙◌,
}
use intaektok_be.Prisma.{Message}
use intaektok_be.Common.Views.{SerializedMessage}
use intaektok_be.World.{World, Result, ok, err, pure}
use intaektok_be.World.Keeps.{bind_rule}
use intaektok_be.Env.{Env}
use intaektok_be.Messages.Checks.{CreateMessageParams}
use intaektok_be.Messages.Persist.{serialize}
use intaektok_be.Messages.Persist.Unique.{UniqueKeys, OthersKeep}
use intaektok_be.Messages.Create.{CreateMessageResult, create_message}
use intaektok_be.Messages.History.{history}
use intaektok_be.Messages.History.Walk.{fetch_all}
use intaektok_be.Realtime.Socket.{Ack, err_ack}
use intaektok_be.Common.Errors.{app, known_request, thrown}
use intaektok_be.Realtime.Handlers.{SendPayload, on_send, ack_of_send, payload_params}
use intaektok_be.Api.{Server, Caller, nobody, guards, run_guards}
use intaektok_be.Api.Messages.{SendMessageDto, SentMessage, send_params, send}
use intaektok_be.Api.Routes.{
  Request, Body, messages_send, HttpReply, success, failure, access_of, room_of, handle, serve,
  respond, replied,
}
use intaektok_be.System.Stays.{OthersLeave}
use intaektok_be.System.Sent.{Any, IsBacked, create_message-IsBacked}
use intaektok_be.System.Run.{Run, Step, http, stay, then}
use intaektok_be.System.Run.Messages.{run-UniqueKeys, stored_is_shown}

-- A row of the room with an id and a number.
abbrev Row : Ident → Ident → ℕ → World → Type 0
Row room id seq v =
    (m : Message) × In m v.messages × (m.room_id ≡ room) × (id ≡ m.id) × (seq ≡ m.seq)

abbrev sent_body : Body → Option SentMessage
sent_body (Body.sent r) = some r
sent_body _ = none

abbrev sent_in : Result Body → Option SentMessage
sent_in (ok b) = sent_body b
sent_in (err _) = none

some_injective : {A : Type 0} (a b : A) → some a ≡ some b → a ≡ b
some_injective a b e = cc

module _ (room : Ident) where
  abbrev IsSent : Result SentMessage × World → Type 0
  IsSent (ok r, v) = Row room r.id r.seq v
  IsSent (err _, v) = Unit {0}

  -- So is what is answered, where it is a message.
  abbrev IsAnswered : Result Body × World → Type 0
  IsAnswered (x, v) = (r : SentMessage) → sent_in x ≡ some r → Row room r.id r.seq v

  send-IsSent :
      (s : Server) (user : Ident) (dto : SendMessageDto) (w : World)
      → IsSent (send s room user dto w)
  unfolding send serialize
  send-IsSent s user dto w =
      let p = send_params room user dto in
      bind_rule (IsBacked s.env p) IsSent (create_message s.env p)
        (λ r.
          pure
            (record { id = r.message.id; seq = r.message.seq; created_at = r.message.created_at }))
        w (create_message-IsBacked s.env p w)
        (λ r v (m, i, e, b). let (x, y) = shown r m b in (m, i, e, x, y)) (λ _ _ _. tt)
    where
      shown :
          (r : CreateMessageResult) (m : Message)
          → r.message ≡ serialize m
          → (r.message.id ≡ m.id) × (r.message.seq ≡ m.seq)
      shown r m b =
          (ap (λ (x : SerializedMessage). x.id) b, ap (λ (x : SerializedMessage). x.seq) b)

  handle-IsAnswered :
      (s : Server) (c : Caller) (dto : SendMessageDto) (w : World)
      → IsAnswered (handle s c (messages_send room dto) w)
  unfolding handle
  handle-IsAnswered s c dto w =
      bind_rule IsSent IsAnswered (send s room c.user_id dto) (λ r. pure (Body.sent r)) w
        (send-IsSent s c.user_id dto w) (λ r v h q e. same r q v (some_injective r q e) h)
        (λ _ _ _ _ e. cc)
    where
      same : (r q : SentMessage) (v : World) → r ≡ q → Row room r.id r.seq v → Row room q.id q.seq v
      same r q v e h = subst (λ (x : SentMessage). Row room x.id x.seq v) e h

  serve-IsAnswered :
      (s : Server) (token : Option Text) (dto : SendMessageDto) (w : World)
      → IsAnswered (serve s token (messages_send room dto) w)
  unfolding serve
  serve-IsAnswered s token dto w =
      let req = messages_send room dto in
      bind_rule Any IsAnswered (run_guards s token (room_of req) (guards (access_of req)) nobody)
        (λ c. handle s c req) w tt (λ c v _. handle-IsAnswered s c dto v) (λ _ _ _ _ e. cc)

-- A client that follows the cursors of the room's history from the start is shown the message.
abbrev pub IsShown : World → Ident → Ident → ℕ → ℕ → ℕ → Type 0
IsShown v room id seq k rounds =
    (items : List SerializedMessage) × (fetch_all rounds room none (suc k) v ≡ some items)
    × (x : SerializedMessage) × In x items
    × (x.id ≡ id)
    × (x.seq ≡ seq)

module _ (s : Server) (w v : World) (room id : Ident) (seq k rounds : ℕ) where
  Row-IsShown :
      OthersKeep s.env
      → ((m : Message) → OthersLeave s.env m)
      → UniqueKeys w.messages
      → Row room id seq w
      → Run s w v
      → length (history room v) < rounds
      → IsShown v room id seq k rounds
  Row-IsShown keep leave u (m, i, e, same_id, same_seq) r enough =
      let (items, all, x, j, (x_id, x_seq, _)) =
        stored_is_shown s w v m k rounds keep (leave m) u i r
          (subst (λ a. length (history a v) < rounds) (sym e) enough) in
      (
        items,
        subst (λ a. fetch_all rounds a none (suc k) v ≡ some items) e all,
        x,
        j,
        x_id ∙ sym same_id,
        x_seq ∙ sym same_seq,
      )

abbrev sent_reply : HttpReply → Option SentMessage
sent_reply (success _ b) = sent_body b
sent_reply (failure _) = none

replied_sent : (status : ℕ) (x : Result Body) → sent_reply (replied status x) ≡ sent_in x
replied_sent status (ok b) = refl
replied_sent status (err e) = refl

same_ack : (a b c id seq at : ℕ) → Ack.sent a b c ≡ Ack.sent id seq at → (id ≡ a) × (seq ≡ b)
same_ack a b c id seq at h = (cc, cc)

ack-Row :
    (env : Env) (p : CreateMessageParams) (x : Result CreateMessageResult) (v : World)
    (id seq at : ℕ)
    → IsBacked env p (x, v)
    → ack_of_send x ≡ Ack.sent id seq at
    → Row p.room_id id seq v
unfolding serialize err_ack
ack-Row env p (ok r) v id seq at (m, i, e, b) h =
    let (same_id, same_seq) =
      same_ack r.message.id r.message.seq r.message.created_at id seq at h in
    (
      m,
      i,
      e,
      same_id ∙ ap (λ (x : SerializedMessage). x.id) b,
      same_seq ∙ ap (λ (x : SerializedMessage). x.seq) b,
    )
ack-Row env p (err (app e)) v id seq at _ h = absurd cc
ack-Row env p (err (known_request n)) v id seq at _ h = absurd cc
ack-Row env p (err thrown) v id seq at _ h = absurd cc

-- A call that sends a message to a room and is answered with the message's id and number, over the REST
-- API or over a socket, and the state it leads to.
pub data Accepts (s : Server) (w : World) : Ident → Ident → ℕ → World → Type 0 where
  posted :
      (token : Option Text) (room : Ident) (dto : SendMessageDto) (r : SentMessage)
      → (respond s token (messages_send room dto) w).0 ≡ success 201 (Body.sent r)
      → Accepts s w room r.id r.seq (respond s token (messages_send room dto) w).1
  acked :
      (user : Ident) (body : SendPayload) (id : Ident) (seq at : ℕ)
      → (on_send s.env user body w).0 ≡ Ack.sent id seq at
      → Accepts s w body.room_id id seq (on_send s.env user body w).1

serve-Row :
    (room : Ident) (x : Result Body) (v : World) (r : SentMessage)
    → IsAnswered room (x, v)
    → sent_in x ≡ some r
    → Row room r.id r.seq v
serve-Row room x v r h e = h r e

accepted-Row :
    (s : Server) (w : World) (room id : Ident) (seq : ℕ) (u : World)
    → Accepts s w room id seq u
    → Row room id seq u
unfolding respond on_send intaektok_be.Api.Routes.status_of
accepted-Row s w _ _ _ _ (posted token room dto r h) =
    let req = messages_send room dto in
    serve-Row room (serve s token req w).0 (serve s token req w).1 r
      (serve-IsAnswered room s token dto w)
      (sym (replied_sent 201 (serve s token req w).0) ∙ ap sent_reply h)
accepted-Row s w _ _ _ _ (acked user body id seq at h) =
    let p = payload_params user body in
    ack-Row s.env p (create_message s.env p w).0 (create_message s.env p w).1 id seq at
      (create_message-IsBacked s.env p w) h

accepted_step :
    (s : Server) (w : World) (room id : Ident) (seq : ℕ) (u : World)
    → Accepts s w room id seq u
    → Run s w u
accepted_step s w _ _ _ _ (posted token room dto r h) =
    then stay (http token (messages_send room dto))
accepted_step s w _ _ _ _ (acked user body id seq at h) = then stay (Step.sent user body)

-- A message that the server has accepted, over the REST API or a socket, is shown ever after: after any
-- further run, a client that follows the cursors of the room's history from the start, with pages of any
-- size, gets an item with the id and the number that the sender was answered, at most one round after as
-- many as the room has messages. The keys of the messages must be unique before, and other requests that
-- run in between must keep that and remove no message.
pub accepted-IsShown :
    (s : Server) (w u v : World) (room id : Ident) (seq k rounds : ℕ)
    → OthersKeep s.env
    → ((m : Message) → OthersLeave s.env m)
    → UniqueKeys w.messages
    → Accepts s w room id seq u
    → Run s u v
    → length (history room v) < rounds
    → IsShown v room id seq k rounds
accepted-IsShown s w u v room id seq k rounds keep leave unique a r enough =
    Row-IsShown s u v room id seq k rounds keep leave
      (run-UniqueKeys s w u keep unique (accepted_step s w room id seq u a))
      (accepted-Row s w room id seq u a) r enough
