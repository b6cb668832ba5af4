-- ===== src/Messages/Seq.antt =====
-- src/messages/messages.service.ts: how sequence numbers are issued, from a counter in Redis that is
-- set up from the database.
pub mod Fresh
use intaektok_be.Prelude.{Bool, ◌&&◌, ℕ, not, List, [], ◌∷◌, Ident, ◌==◌, leb, if◌then◌else◌}
use intaektok_be.Prisma.{Message}
use intaektok_be.World.{World, Call, gets, ◌>>=◌, ◌>>◌, when}
use intaektok_be.Redis.{counter_exists, set_counter, set_nx, incr}

-- `_max: { seq }` over the messages of a room, 0 where there is none.
abbrev pub max_seq : Ident → List Message → ℕ
max_seq room [] = 0
max_seq room (m ∷ ms) =
    let rest = max_seq room ms in
    if m.room_id == room then (if leb m.seq rest then rest else m.seq) else rest

abbrev pub db_max_seq : Ident → World → ℕ
db_max_seq room w = max_seq room w.messages

unfoldable pub next_seq : Ident → Call ℕ
next_seq room = do
  present ← counter_exists room
  when (not present) (do max ← gets (db_max_seq room); set_nx room max)
  incr room

unfoldable pub resync_seq : Ident → Call (Unit {0})
resync_seq room = do max ← gets (db_max_seq room); set_counter room max

abbrev pub has_seq : Ident → ℕ → Message → Bool
has_seq room n m = m.room_id == room && m.seq == n
