-- ===== src/Messages/Seq/Fresh.antt =====
-- On the numbers that `nextSeq` issues (src/messages/messages.service.ts).
use intaektok_be.Prelude.{
  ℕ, suc, ◌<◌, ◌≡◌, refl, Option, none, some, List, [], ◌∷◌, Ident, find, arith, inl, inr,
  Option-cases,
}
use intaektok_be.Prisma.{Message}
use mathlib.Core.Path.{fun_ext}
use intaektok_be.Redis.{put}
use intaektok_be.World.{World, ok}
use intaektok_be.Messages.Seq.{max_seq, db_max_seq, has_seq, next_seq, resync_seq}

-- No message of the room has a number above the maximum.
pub find-has_seq_above :
    (room n : ℕ) (ms : List Message) → max_seq room ms < n → find (has_seq room n) ms ≡ none
find-has_seq_above room n [] h = refl
find-has_seq_above room n (m ∷ ms) h = ground (arith, find-has_seq_above room n ms)

abbrev pub base : Option ℕ → ℕ → ℕ
base none max = max
base (some c) _ = c

abbrev pub issued_seq : Ident → World → ℕ
issued_seq room w = suc (base (w.counter room) (db_max_seq room w))

-- The state after a number is issued.
abbrev pub counting : Ident → ℕ → World → World
counting room n w = record w { counter = put room (some n) w.counter }

put_twice :
    (room : Ident) (a b : Option ℕ) (f : Ident → Option ℕ)
    → put room a (put room b f) ≡ put room a f
put_twice room a b f = fun_ext (λ j. ground arith)

put_self : (room : Ident) (a : Option ℕ) (f : Ident → Option ℕ) → put room a f room ≡ a
put_self room a f = ground arith

-- One above the counter, or above the maximum of the room's messages where there is no counter, is
-- issued, and the counter stands at it.
pub next_seq_lem :
    (room : Ident) (w : World)
    → next_seq room w ≡ (ok (issued_seq room w), counting room (issued_seq room w) w)
unfolding next_seq
next_seq_lem room w = elim (Option-cases (w.counter room)) [
  | inl e ↦
      ground (
        arith,
        put_twice room (some (suc (db_max_seq room w))) (some (db_max_seq room w)) w.counter,
      )
  | inr (c, e) ↦ ground arith
]

pub resync_seq_lem :
    (room : Ident) (w : World) → resync_seq room w ≡ (ok tt, counting room (db_max_seq room w) w)
unfolding resync_seq
resync_seq_lem room w = refl
