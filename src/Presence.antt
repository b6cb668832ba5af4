-- ===== src/Presence.antt =====
-- src/presence/presence.service.ts: the live sockets of each user, a set in Redis. A key that is
-- missing is an empty set; that a key expires, with the server that held it, is `expired`.
pub mod Online
pub mod Heartbeat
use intaektok_be.Prelude.{
  ℕ, Bool, true, false, Option, some, List, [], ◌∷◌, Ident, ◌==◌, ltb, if◌then◌else◌, update_where,
  delete_where, length, contains,
}
use intaektok_be.Prisma.{User}
use intaektok_be.World.{World, Call, pure, gets, modify, ◌>>=◌, ◌>>◌}
use intaektok_be.Redis.{put}

-- `sadd`, `srem`, `scard` and `del` of src/redis/redis.service.ts, on `presence:online:{user}`
abbrev pub sadd : Ident → List Ident → List Ident
sadd s set = if contains set s then set else s ∷ set

abbrev pub srem : Ident → List Ident → List Ident
srem s set = delete_where (λ i. i == s) set

abbrev pub set_sockets : Ident → List Ident → World → World
set_sockets user set w = record w { sockets = put user set w.sockets }

abbrev pub scard : Ident → World → ℕ
scard user w = length (w.sockets user)

unfoldable pub add_connection : Ident → Ident → Call Bool
add_connection user socket = do
  modify λ w. set_sockets user (sadd socket (w.sockets user)) w
  n ← gets (scard user)
  pure (n == 1)

abbrev pub seen : ℕ → User → User
seen now u = record u { last_seen_at = some now }

-- A user that is gone has no row to update, which is caught.
abbrev pub see_off : Ident → World → World
see_off user w = record (set_sockets user [] w) {
  users = update_where (λ (u : User). u.id == user) (seen w.now) w.users;
}

abbrev pub went_offline : Ident → ℕ → Call Bool
went_offline user n = if n == 0 then modify (see_off user) >> pure true else pure false

unfoldable pub remove_connection : Ident → Ident → Call Bool
remove_connection user socket = do
  modify λ w. set_sockets user (srem socket (w.sockets user)) w
  n ← gets (scard user)
  went_offline user n

-- The key's time to live ran out.
abbrev pub expired : Ident → World → World
expired user w = set_sockets user [] w

abbrev pub is_online : Ident → World → Bool
is_online user w = ltb 0 (scard user w)
