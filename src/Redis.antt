-- ===== src/Redis.antt =====
-- src/redis/redis.service.ts: the helpers on keys that the services use. A counter key is named by
-- its room, a refresh key by its user and `jti`, a presence key by its user.
use intaektok_be.Prelude.{
  ℕ, suc, Bool, not, Option, none, some, Ident, is_some, ◌==◌, if◌then◌else◌,
}
use intaektok_be.World.{Call, pure, gets, modify, ◌>>=◌, ◌>>◌, when}

abbrev pub put {ℓ} : {A : Type ℓ} → Ident → A → (Ident → A) → Ident → A
put k v f j = if j == k then v else f j

-- `exists` on a counter
abbrev pub counter_exists : Ident → Call Bool
counter_exists room w = gets (λ v. is_some (v.counter room)) w

-- `set` on a counter
abbrev pub set_counter : Ident → ℕ → Call (Unit {0})
set_counter room v = modify λ w. record w { counter = put room (some v) w.counter }

-- `setNx` on a counter; the caller drops the reply
abbrev pub set_nx : Ident → ℕ → Call (Unit {0})
set_nx room v w = when (not (is_some (w.counter room))) (set_counter room v) w

abbrev pub incremented : Option ℕ → ℕ
incremented none = 1
incremented (some n) = suc n

-- `incr` counts from 0 where the key is missing
abbrev pub incr : Ident → Call ℕ
incr room = do n ← gets (λ w. incremented (w.counter room)); set_counter room n; pure n
