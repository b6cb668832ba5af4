-- ===== src/Messages/History/Pages.antt =====
-- On the order and the pages of `listMessages` (src/messages/messages.service.ts).
use intaektok_be.Prelude.{
  ℕ, zero, suc, ◌≤◌, ◌<◌, ◌≡◌, ◌≢◌, refl, Bool, true, false, none, some, List, [], ◌∷◌, ◌++◌, Ident,
  leb, if◌then◌else◌, find, select, take, length, All, arith, Bool-cases, inl, inr, length,
}
use intaektok_be.Prisma.{Message}
use intaektok_be.World.{World}
use intaektok_be.Messages.Seq.{has_seq}
use intaektok_be.Messages.Persist.Unique.{UniqueKeys}
use intaektok_be.Messages.History.{insert_desc, order_desc, of_room, history, before, last_seq}

-- The numbers fall along the list.
abbrev pub Descending : List Message → Type 0
Descending [] = Unit {0}
Descending (m ∷ ms) = All (λ x. x.seq < m.seq) ms × Descending ms

All-if :
    (P : Message → Type 0) (b : Bool) (xs ys : List Message)
    → All P xs
    → All P ys
    → All P (if b then xs else ys)
All-if P true xs ys h k = h
All-if P false xs ys h k = k

insert_desc-All :
    (P : Message → Type 0) (m : Message) (xs : List Message)
    → P m
    → All P xs
    → All P (insert_desc m xs)
insert_desc-All P m [] p h = (p, tt)
insert_desc-All P m (x ∷ xs) p h =
    All-if P (leb x.seq m.seq) (m ∷ x ∷ xs) (x ∷ insert_desc m xs) (p, h)
      (h.0, insert_desc-All P m xs p h.1)

order_desc-All : (P : Message → Type 0) (xs : List Message) → All P xs → All P (order_desc xs)
order_desc-All P [] h = tt
order_desc-All P (x ∷ xs) h = insert_desc-All P x (order_desc xs) h.0 (order_desc-All P xs h.1)

All-below :
    (a b : ℕ) (xs : List Message) → a ≤ b → All (λ x. x.seq < a) xs → All (λ x. x.seq < b) xs
All-below a b [] h k = tt
All-below a b (x ∷ xs) h k = (omega (arith, k.0), All-below a b xs h k.1)

insert_desc-Descending :
    (m : Message) (xs : List Message)
    → All (λ x. x.seq ≢ m.seq) xs
    → Descending xs
    → Descending (insert_desc m xs)
insert_desc-Descending m [] n d = (tt, tt)
insert_desc-Descending m (x ∷ xs) n d = elim (Bool-cases (leb x.seq m.seq)) [
  | inl e ↦ rw e ((ground arith, All-below x.seq m.seq xs (ground arith) d.0), d)
  | inr e ↦ rw e (
    insert_desc-All (λ y. y.seq < x.seq) m xs (ground arith) d.0,
    insert_desc-Descending m xs n.1 d.1,
  )
]

select-distinct :
    (room : Ident) (m : Message) (ms : List Message)
    → m.room_id ≡ room
    → find (has_seq m.room_id m.seq) ms ≡ none
    → All (λ x. x.seq ≢ m.seq) (select (of_room room) ms)
select-distinct room m [] e h = tt
select-distinct room m (x ∷ xs) e h =
    let rest = select-distinct room m xs e (ground arith) in
    elim (Bool-cases (of_room room x)) [
      | inl i ↦ rw i ((λ q. ground arith), rest)
      | inr i ↦ rw i rest
    ]

history_of-Descending :
    (room : Ident) (ms : List Message)
    → UniqueKeys ms
    → Descending (order_desc (select (of_room room) ms))
history_of-Descending room [] u = tt
history_of-Descending room (m ∷ ms) u = elim (Bool-cases (of_room room m)) [
  | inl e ↦ rw e (
      insert_desc-Descending m _ (order_desc-All _ _ (select-distinct room m ms (ground arith) u.0))
        (history_of-Descending room ms u.2))
  | inr e ↦ rw e (history_of-Descending room ms u.2)
]

-- Where no two messages share a number, a room's history falls in number.
pub history-Descending :
    (room : Ident) (w : World) → UniqueKeys w.messages → Descending (history room w)
unfolding history
history-Descending room w u = history_of-Descending room w.messages u

pub select-All :
    (c : ℕ) (ms : List Message) → All (λ x. x.seq < c) ms → select (before (some c)) ms ≡ ms
select-All c [] h = refl
select-All c (m ∷ ms) h = ground (arith, select-All c ms h.1)

-- A full page of a falling list ends at a number, and what comes before that number is the rest.
pub page_cut :
    (k : ℕ) (ms : List Message)
    → Descending ms
    → suc k < length ms
    → (c : ℕ) × (last_seq (take (suc k) ms) ≡ some c)
      × (take (suc k) ms ++ select (before (some c)) ms ≡ ms)
      × (length (select (before (some c)) ms) < length ms)
      × ((n : ℕ) → All (λ x. x.seq < n) ms → c < n)
page_cut k [] d h = absurd (omega arith)
page_cut k (m ∷ []) d h = absurd (omega arith)
page_cut zero (m ∷ x ∷ xs) d h =
    let all = select-All m.seq (x ∷ xs) d.0 in
    (m.seq, refl, ground (arith, all), ground (arith, all), λ n a. a.0)
page_cut (suc k) (m ∷ x ∷ xs) d h =
    let (c, last, whole, shorter, below) = page_cut k (x ∷ xs) d.1 (omega arith) in
    (
      c,
      last,
      ground (arith, below m.seq d.0, whole),
      ground (arith, below m.seq d.0, shorter),
      λ n a. below n a.1,
    )
