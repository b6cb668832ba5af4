-- ===== src/System/Run/Kept.antt =====
-- On what the steps of a run keep.
use intaektok_be.Prelude.{Option, List, [], ◌∷◌, Ident, Text, refl, arith}
use intaektok_be.Common.Events.{MessageCreatedEvent}
use intaektok_be.World.{World}
use intaektok_be.Auth.Jwt.{Jwt}
use intaektok_be.Auth.Login.{bootstrap_one, bootstrap_whitelist}
use intaektok_be.Presence.{add_connection}
use intaektok_be.Push.{on_message_created}
use intaektok_be.Realtime.Socket.{Client}
use intaektok_be.Realtime.Handlers.{on_send, on_read, on_delete}
use intaektok_be.Realtime.Connection.{handle_connection}
use intaektok_be.Api.{Server}
use intaektok_be.Api.Routes.{respond}
use intaektok_be.System.Preserves.{Law}
use intaektok_be.System.Preserves.Unsend.{soft_delete-Preserves}
use intaektok_be.System.Requests.{serve-Preserves}
use intaektok_be.System.Quiet.{Calm, mark_read-Quiet}
use intaektok_be.System.Run.{
  Step, Run, http, sent, read, deleted, connect, disconnect, notify, boot, expire, tick, stay, then,
}

connect-Calm :
    (jwt : Jwt) (client : Client) (auth header : Option Text) (w : World)
    → Calm w (handle_connection jwt client auth header w).2
unfolding handle_connection add_connection
connect-Calm jwt client auth header w = (ground arith, ground arith, ground arith, ground arith)

notify-Calm :
    (invalid : List Ident → List Ident) (event : MessageCreatedEvent) (w : World)
    → Calm w (on_message_created invalid event w)
unfolding on_message_created
notify-Calm invalid event w = (ground arith, ground arith, ground arith, ground arith)

module _ {Q : World → Type 0} (s : Server) (law : Law s.env Q) where
  boot_kept : (ids : List Ident) (w : World) → Q w → Q (bootstrap_whitelist s.env ids w)
  unfolding bootstrap_whitelist
  boot_kept [] w h = h
  boot_kept (i ∷ is) w h = boot_kept is (bootstrap_one s.env i w) (law.boot i w h)

  Step-Preserves : {w v : World} → Step s w v → Q w → Q v
  unfolding respond on_send on_read on_delete
  Step-Preserves {w} (http token req) h = (serve-Preserves s token req law).at w h
  Step-Preserves {w} (sent user body) h = (law.create _).at w h
  Step-Preserves {w} (read user room seq) h = law.calm w _ ((mark_read-Quiet room user seq).at w) h
  Step-Preserves {w} (deleted user room id) h =
      (soft_delete-Preserves s.env law room id user).at w h
  Step-Preserves {w} (connect client auth header) h =
      law.calm w _ (connect-Calm s.jwt client auth header w) h
  Step-Preserves {w} (disconnect client) h = law.disconnect client w h
  Step-Preserves {w} (notify invalid event) h = law.calm w _ (notify-Calm invalid event w) h
  Step-Preserves {w} (boot ids) h = boot_kept ids w h
  Step-Preserves {w} (expire user) h = law.calm w _ (refl, refl, refl, omega arith) h
  Step-Preserves {w} (tick ms) h = law.calm w _ (refl, refl, refl, omega arith) h

  pub Run-Preserves : {w v : World} → Run s w v → Q w → Q v
  Run-Preserves stay h = h
  Run-Preserves (then r st) h = Step-Preserves st (Run-Preserves r h)
