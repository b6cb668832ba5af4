-- ===== src/System/Run.antt =====
-- Runs of the server: requests of the REST API and of sockets, the delivery of events, the start, and
-- what happens outside, in any order.
pub mod Kept
pub mod Messages
pub mod Accepted
pub mod Blocked
use intaektok_be.Prelude.{
  ℕ, ◌+◌, ◌<◌, suc, Option, none, some, List, [], ◌∷◌, Ident, Text, In, length, map, ◌≡◌, refl, sym,
  subst, is_some, if◌then◌else◌, Bool, true, false,
}
use intaektok_be.Prisma.{Message}
use intaektok_be.Common.Events.{MessageCreatedEvent}
use intaektok_be.World.{World}
use intaektok_be.Env.{Env}
use intaektok_be.Auth.Login.{bootstrap_whitelist}
use intaektok_be.Presence.{expired}
use intaektok_be.Push.{on_message_created}
use intaektok_be.Realtime.Socket.{Client}
use intaektok_be.Realtime.Handlers.{SendPayload, on_send, on_read, on_delete}
use intaektok_be.Realtime.Connection.{handle_connection, handle_disconnect}
use intaektok_be.Api.{Server}
use intaektok_be.Api.Routes.{Request, respond}
use intaektok_be.System.Preserves.{Preserves, Law}

-- One step from a state: to what it leads.
pub data Step (s : Server) (w : World) : World → Type 0 where
  http : (token : Option Text) (req : Request) → Step s w (respond s token req w).1
  sent : (user : Ident) (body : SendPayload) → Step s w (on_send s.env user body w).1
  read : (user room : Ident) (seq : ℕ) → Step s w (on_read user room seq w).1
  deleted : (user room id : Ident) → Step s w (on_delete s.env user room id w).1
  connect :
      (client : Client) (auth header : Option Text)
      → Step s w (handle_connection s.jwt client auth header w).2
  disconnect : (client : Client) → Step s w (handle_disconnect client w).1
  -- the push service, with whatever Firebase finds invalid
  notify :
      (invalid : List Ident → List Ident) (event : MessageCreatedEvent)
      → Step s w (on_message_created invalid event w)
  boot : (ids : List Ident) → Step s w (bootstrap_whitelist s.env ids w)
  -- a presence key expires; time passes
  expire : (user : Ident) → Step s w (expired user w)
  tick : (ms : ℕ) → Step s w (record w { now = w.now + ms })

pub data Run (s : Server) (w : World) : World → Type 0 where
  stay : Run s w w
  then : {v u : World} → Run s w v → Step s v u → Run s w u
