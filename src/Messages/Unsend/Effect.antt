-- ===== src/Messages/Unsend/Effect.antt =====
-- On `softDelete` (src/messages/messages.service.ts).
use intaektok_be.Prelude.{
  ℕ, ◌+◌, ◌*◌, ◌≤◌, ◌≡◌, ap, find-holds, find-update_where, ◌↔◌, ◌⊎◌, inl, inr, true, false, none,
  some, Ident, ◌==◌, if◌then◌else◌, is_some, arith, Option-cases,
}
use intaektok_be.Prisma.{Message, is_system}
use intaektok_be.World.{World, ok}
use intaektok_be.Env.{Env}
use intaektok_be.Messages.Checks.{find_message}
use intaektok_be.Messages.Persist.{serialize}
use intaektok_be.Messages.Unsend.{soft_delete, unsent}

pub record Unsendable (env : Env) (room id requester : Ident) (w : World) : Type 0 where
  pub row : Message
  pub stored : find_message (some id) w ≡ some row
  pub here : row.room_id ≡ room
  pub sent : is_system row.kind ≡ false
  pub own : row.sender_id ≡ requester
  pub in_time :
      (is_some row.deleted_at ≡ true) ⊎ (w.now ≤ row.created_at + 1000 * env.unsend_window_sec)

-- `softDelete` succeeds exactly for a message of the room that the requester sent, that the server
-- did not generate, and that is unsent already or young enough.
pub soft_delete_iff :
    (env : Env) (room id requester : Ident) (w : World)
    → ((soft_delete env room id requester w).0 ≡ ok tt) ↔ Unsendable env room id requester w
unfolding soft_delete
soft_delete_iff env room id requester w = (
  (λ h. elim (Option-cases (find_message (some id) w)) [
    | inl e ↦ absurd (ground arith)
    | inr (m, e) ↦ record {
      row = m;
      stored = e;
      here = ground arith;
      sent = ground arith;
      own = ground arith;
      in_time = ground arith;
    }
  ]),
  λ u. ground (arith, u.stored, u.here, u.sent, u.own, u.in_time),
)

-- The row after a call that succeeded: as it was if it was unsent before, else emptied.
abbrev left_row : Message → ℕ → Message
left_row m now = if is_some m.deleted_at then m else unsent now m

stored_row :
    (env : Env) (room id requester : Ident) (w w' : World) (m : Message)
    → find_message (some id) w ≡ some m
    → soft_delete env room id requester w ≡ (ok tt, w')
    → find_message (some id) w' ≡ some (left_row m w.now)
unfolding soft_delete
stored_row env room id requester w w' m e h =
    let same = find-holds (λ (x : Message). x.id == id) w.messages m e in
    let found =
      find-update_where (λ (x : Message). x.id == id) (unsent w.now) w.messages m (λ x k. k) e in
    ground (arith, same, found)

stays_unsendable :
    (env : Env) (room id requester : Ident) (w w' : World) (m : Message)
    → find_message (some id) w ≡ some m
    → soft_delete env room id requester w ≡ (ok tt, w')
    → (m.room_id ≡ room) × (is_system m.kind ≡ false) × (m.sender_id ≡ requester)
unfolding soft_delete
stays_unsendable env room id requester w w' m e h = (ground arith, ground arith, ground arith)

again :
    (env : Env) (room id requester : Ident) (w : World) (m : Message)
    → find_message (some id) w ≡ some m
    → m.room_id ≡ room
    → is_system m.kind ≡ false
    → m.sender_id ≡ requester
    → is_some m.deleted_at ≡ true
    → soft_delete env room id requester w ≡ (ok tt, w)
unfolding soft_delete
again env room id requester w m e r k s d = ground arith

-- After a call that succeeded the message is marked as deleted and is handed out without its body
-- and its media, and a further call succeeds without any effect.
pub soft_delete_erases :
    (env : Env) (room id requester : Ident) (w w' : World)
    → soft_delete env room id requester w ≡ (ok tt, w')
    → (m : Message) × (find_message (some id) w' ≡ some m)
      × (is_some m.deleted_at ≡ true)
      × ((serialize m).content ≡ none)
      × ((serialize m).media_id ≡ none)
      × (soft_delete env room id requester w' ≡ (ok tt, w'))
unfolding serialize
soft_delete_erases env room id requester w w' h =
    let u = (soft_delete_iff env room id requester w).0 (ap (λ r. r.0) h) in
    let m = left_row u.row w.now in
    let found = stored_row env room id requester w w' u.row u.stored h in
    (
      m,
      found,
      ground arith,
      ground arith,
      ground arith,
      again env room id requester w' m found (ground (arith, u.here)) (ground (arith, u.sent))
          (ground (arith, u.own)) (ground arith),
    )
