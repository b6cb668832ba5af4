-- ===== src/Messages/History/Walk.antt =====
-- On a client that follows the cursors of `listMessages` (src/messages/messages.service.ts).
use intaektok_be.Prelude.{
  ℕ, zero, suc, ◌≤◌, ◌<◌, ◌≡◌, refl, ap, true, Option, none, some, List, [], ◌∷◌, ◌++◌, map, Ident,
  ltb, select, take, length, All, arith, Bool-cases, inl, inr,
}
use mathlib.Core.List.{map-append}
use intaektok_be.Prisma.{Message}
use intaektok_be.Common.Views.{SerializedMessage}
use intaektok_be.World.{World, ok, err}
use intaektok_be.Messages.Checks.{in_room}
use intaektok_be.Messages.Persist.Unique.{UniqueKeys}
use intaektok_be.Messages.History.{
  Cursor, integer, history, before, bound, with_read_count, last_seq, list_messages,
}
use intaektok_be.Messages.History.Pages.{Descending, history-Descending, page_cut}

take_twice : (k : ℕ) (ms : List Message) → take k (take (suc k) ms) ≡ take k ms
take_twice zero ms = refl
take_twice (suc k) [] = refl
take_twice (suc k) (m ∷ ms) = ground (arith, take_twice k ms)

take-long : (k : ℕ) (ms : List Message) → k < length ms → ltb k (length (take (suc k) ms)) ≡ true
take-long k [] h = absurd (omega arith)
take-long zero (m ∷ ms) h = refl
take-long (suc k) (m ∷ ms) h = ground (arith, take-long k ms)

take-short : (k : ℕ) (ms : List Message) → length ms ≤ k → take k ms ≡ ms
take-short zero [] h = refl
take-short zero (m ∷ ms) h = absurd (omega arith)
take-short (suc k) [] h = refl
take-short (suc k) (m ∷ ms) h = ground (arith, take-short k ms)

select-All :
    (P : Message → Type 0) (c : Option ℕ) (ms : List Message)
    → All P ms
    → All P (select (before c) ms)
select-All P c [] h = tt
select-All P c (m ∷ ms) h = elim (Bool-cases (before c m)) [
  | inl e ↦ rw e (h.0, select-All P c ms h.1)
  | inr e ↦ rw e (select-All P c ms h.1)
]

select-Descending :
    (c : Option ℕ) (ms : List Message) → Descending ms → Descending (select (before c) ms)
select-Descending c [] h = tt
select-Descending c (m ∷ ms) h = elim (Bool-cases (before c m)) [
  | inl e ↦ rw e (select-All _ c ms h.0, select-Descending c ms h.1)
  | inr e ↦ rw e (select-Descending c ms h.1)
]

select-below : (c : ℕ) (ms : List Message) → All (λ x. x.seq < c) (select (before (some c)) ms)
select-below c [] = tt
select-below c (m ∷ ms) = elim (Bool-cases (ltb m.seq c)) [
  | inl e ↦ rw e (ground arith, select-below c ms)
  | inr e ↦ rw e (select-below c ms)
]

abbrev Within : ℕ → Option ℕ → Type 0
Within n none = Unit {0}
Within n (some c) = n ≤ c

select-Within :
    (n : ℕ) (c : Option ℕ) (ms : List Message)
    → Within n c
    → select (before (some n)) (select (before c) ms) ≡ select (before (some n)) ms
select-Within n none [] h = refl
select-Within n none (m ∷ ms) h = ground (arith, select-Within n none ms h)
select-Within n (some c) [] h = refl
select-Within n (some c) (m ∷ ms) h = ground (arith, select-Within n (some c) ms h)

-- A client that follows `nextCursor` until there is none; `none` where the rounds run out or a page
-- is refused.
abbrev pub next_items :
    Option (List SerializedMessage) → List SerializedMessage → Option (List SerializedMessage)
next_items none xs = none
next_items (some ys) xs = some (xs ++ ys)

pub fetch_all : ℕ → Ident → Option Cursor → ℕ → World → Option (List SerializedMessage)
fetch_all zero room cursor limit w = none
fetch_all (suc rounds) room cursor limit w = elim ((list_messages room cursor limit w).0) [
  | err _ ↦ none
  | ok page ↦ elim (page.next_cursor) [
    | none ↦ some page.items
    | some c ↦ next_items (fetch_all rounds room (some (integer c)) limit w) page.items
  ]
]

module _ (room : Ident) (w : World) where
  abbrev serialized : List Message → List SerializedMessage
  serialized = map (with_read_count (select (in_room room) w.members))

  abbrev rest_at : Option ℕ → List Message
  rest_at c = select (before c) (history room w)

  last_page :
      (cursor : Option Cursor) (c : Option ℕ) (k : ℕ)
      → bound cursor w ≡ (ok c, w)
      → length (rest_at c) ≤ suc k
      → (list_messages room cursor (suc k) w).0
        ≡ ok (record { items = serialized (rest_at c); next_cursor = none })
  unfolding list_messages
  last_page cursor c k e short = ground (arith, e, take-short (suc (suc k)) (rest_at c))

  full_page :
      (cursor : Option Cursor) (c : Option ℕ) (k n : ℕ)
      → bound cursor w ≡ (ok c, w)
      → suc k < length (rest_at c)
      → last_seq (take (suc k) (rest_at c)) ≡ some n
      → (list_messages room cursor (suc k) w).0
        ≡ ok (record { items = serialized (take (suc k) (rest_at c)); next_cursor = some n })
  unfolding list_messages
  full_page cursor c k n e long last =
      ground (arith, e, take_twice (suc k) (rest_at c), take-long (suc k) (rest_at c) long)

  cut-Within :
      (c : Option ℕ) (n : ℕ) → ((b : ℕ) → All (λ x. x.seq < b) (rest_at c) → n < b) → Within n c
  cut-Within none n below = tt
  cut-Within (some c) n below =
      let h = below c (select-below c (history room w)) in omega (arith, h)

  walk :
      (rounds : ℕ) (cursor : Option Cursor) (c : Option ℕ) (k : ℕ)
      → bound cursor w ≡ (ok c, w)
      → Descending (history room w)
      → length (rest_at c) < rounds
      → fetch_all rounds room cursor (suc k) w ≡ some (serialized (rest_at c))
  unfolding fetch_all
  walk zero cursor c k e d h = absurd (omega arith)
  walk (suc rounds) cursor c k e d h = elim (Bool-cases (ltb (suc k) (length (rest_at c)))) [
    | inr short ↦ ground (arith, last_page cursor c k e (ground arith))
    | inl long ↦
        let cut = page_cut k (rest_at c) (select-Descending c (history room w) d) (ground arith) in
        let n = cut.0 in
        let same = select-Within n c (history room w) (cut-Within c n cut.4) in
        let rest = walk rounds (some (integer n)) (some n) k refl d (ground (arith, same, cut.3)) in
        let whole =
          map-append (with_read_count (select (in_room room) w.members)) (take (suc k) (rest_at c))
            (select (before (some n)) (rest_at c)) in
        ground (
          arith,
          full_page cursor c k n e (ground arith) cut.1,
          rest,
          ap serialized same,
          whole,
          ap serialized cut.2,
        )
  ]

before-none : (ms : List Message) → select (before none) ms ≡ ms
before-none [] = refl
before-none (m ∷ ms) = ground (arith, before-none ms)

-- Where no two messages of a room share a number, a client that starts without a cursor and follows
-- the cursors of pages of at least one message gets every message of the room once, latest first,
-- after at most one round more than there are messages.
pub fetch_all-history :
    (room : Ident) (w : World) (k rounds : ℕ)
    → UniqueKeys w.messages
    → length (history room w) < rounds
    → fetch_all rounds room none (suc k) w
      ≡ some (map (with_read_count (select (in_room room) w.members)) (history room w))
fetch_all-history room w k rounds u h =
    let all = before-none (history room w) in
    let d = history-Descending room w u in
    rw (walk room w rounds none none k refl d (rw all h))
      (ap (λ ms. some (serialized room w ms)) all)
