-- ===== src/System/Run/Messages.antt =====
-- On the messages of the server (src/messages/messages.service.ts) over whole runs.
use intaektok_be.Prelude.{ℕ, suc, ◌<◌, none, some, List, In, length, map, select, ◌≡◌, refl, subst}
use intaektok_be.Prisma.{Message}
use intaektok_be.Common.Views.{SerializedMessage}
use intaektok_be.World.{World}
use intaektok_be.Messages.Checks.{in_room}
use intaektok_be.Messages.Persist.Unique.{UniqueKeys, OthersKeep}
use intaektok_be.Messages.History.{history, with_read_count}
use intaektok_be.Messages.History.Walk.{fetch_all, fetch_all-history}
use intaektok_be.Api.{Server}
use intaektok_be.System.Keys.{UniqueKeys-Law}
use intaektok_be.System.Stays.{OthersLeave, Stays-Law, In-history, In-map}
use intaektok_be.System.Run.{Run}
use intaektok_be.System.Run.Kept.{Run-Preserves}

-- Whatever the server is asked, over whatever routes and sockets and in whatever order, no two messages
-- of a room have one number or one client message id, if none had at the start and other requests that
-- run in between keep that.
pub run-UniqueKeys :
    (s : Server) (w v : World)
    → OthersKeep s.env
    → UniqueKeys w.messages
    → Run s w v
    → UniqueKeys v.messages
run-UniqueKeys s w v k u r = Run-Preserves s (UniqueKeys-Law s.env k) r u

-- What a client is shown of a message: its id, its number and its sender.
abbrev pub Shows : Message → SerializedMessage → Type 0
Shows m x = (x.id ≡ m.id) × (x.seq ≡ m.seq) × (x.sender_id ≡ m.sender_id)

-- A message that is stored stays reachable: after any run, a client that follows the cursors of its
-- room's history from the start, with pages of any size, is shown it, with its id, its number and its
-- sender, at most one round after as many as the room has messages. The keys of the messages must be
-- unique at the start, and other requests that run in between must keep that and remove no message.
pub stored_is_shown :
    (s : Server) (w v : World) (m : Message) (k rounds : ℕ)
    → OthersKeep s.env
    → OthersLeave s.env m
    → UniqueKeys w.messages
    → In m w.messages
    → Run s w v
    → length (history m.room_id v) < rounds
    → (items : List SerializedMessage) × (fetch_all rounds m.room_id none (suc k) v ≡ some items)
      × (x : SerializedMessage) × In x items
      × Shows m x
unfolding with_read_count
stored_is_shown s w v m k rounds keep leave u i r enough =
    let (x, j, (id, room, sender, seq)) =
      Run-Preserves s (Stays-Law s.env m leave) r (m, i, (refl, refl, refl, refl)) in
    let unique = run-UniqueKeys s w v keep u r in
    let here = subst (λ a. In x (history a v)) room (In-history x v j) in
    (
      map (with_read_count (select (in_room m.room_id) v.members)) (history m.room_id v),
      fetch_all-history m.room_id v k rounds unique enough,
      with_read_count (select (in_room m.room_id) v.members) x,
      In-map (with_read_count (select (in_room m.room_id) v.members)) x (history m.room_id v) here,
      shown x id seq sender,
    )
  where
    shown :
        (x : Message)
        → x.id ≡ m.id
        → x.seq ≡ m.seq
        → x.sender_id ≡ m.sender_id
        → Shows m (with_read_count (select (in_room m.room_id) v.members) x)
    shown x id seq sender = (id, seq, sender)
