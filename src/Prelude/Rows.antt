-- ===== src/Prelude/Rows.antt =====
-- Laws of the queries on tables.
use Prim.Native.Nat.{ℕ, ◌≤◌, ◌+◌}
use mathlib.Core.Path.{◌≡◌, refl, ap}
use mathlib.Core.Bool.{Bool, true, false}
use mathlib.Core.Logic.{◌↔◌, ◌⊎◌, inl, inr}
use mathlib.Core.Option.{none, some}
use mathlib.Core.List.{List, [], ◌∷◌}
use native.Mathlib.Omega.{arith}
use intaektok_be.Prelude.Tests.{if◌then◌else◌, Bool-cases, Option-cases, is_some}
use intaektok_be.Prelude.Tables.{find, select, update_where, delete_where, count, All}

module _ {A : Type 0} (p : A → Bool) where
  pub find-holds : (xs : List A) (a : A) → find p xs ≡ some a → p a ≡ true
  find-holds [] a h = cc
  find-holds (x ∷ xs) a h = elim (Bool-cases (p x)) [
    | inl e ↦ ground (arith, e)
    | inr e ↦ find-holds xs a (ground (arith, e))
  ]

  pub find-delete_where : (xs : List A) → find p (delete_where p xs) ≡ none
  find-delete_where [] = refl
  find-delete_where (x ∷ xs) = ground (arith, find-delete_where xs)

  -- A property of the rows that the update gives to the rows it touches.
  pub All-update_where {κ} :
      (P : A → Type κ) (f : A → A) (xs : List A)
      → ((x : A) → p x ≡ true → P x → P (f x))
      → All P xs
      → All P (update_where p f xs)
  All-update_where P f [] k h = tt
  All-update_where P f (x ∷ xs) k h = (touched (p x) refl, All-update_where P f xs k h.1)
    where
      touched : (b : Bool) → p x ≡ b → P (if b then f x else x)
      touched true e = k x e h.0
      touched false e = h.0

module _ {A : Type 0} (p : A → Bool) (f : A → A) where
  pub find-update_where :
      (xs : List A) (a : A)
      → ((x : A) → p x ≡ true → p (f x) ≡ true)
      → find p xs ≡ some a
      → find p (update_where p f xs) ≡ some (f a)
  find-update_where [] a k h = cc
  find-update_where (x ∷ xs) a k h = elim (Bool-cases (p x)) [
    | inl e ↦ ground (arith, e, k x e)
    | inr e ↦ ground (arith, e, find-update_where xs a k (ground (arith, e)))
  ]

  pub find-update_where-none : (xs : List A) → find p xs ≡ none → update_where p f xs ≡ xs
  find-update_where-none [] h = refl
  find-update_where-none (x ∷ xs) h = ground (arith, find-update_where-none xs)

module _ {A : Type 0} (p q : A → Bool) (f : A → A) where
  pub find-update_where_ne :
      (xs : List A)
      → ((x : A) → p x ≡ true → q x ≡ false)
      → ((x : A) → p x ≡ true → q (f x) ≡ false)
      → find q (update_where p f xs) ≡ find q xs
  find-update_where_ne [] k l = refl
  find-update_where_ne (x ∷ xs) k l = elim (Bool-cases (p x)) [
    | inl e ↦ ground (arith, e, k x e, l x e, find-update_where_ne xs k l)
    | inr e ↦ ground (arith, e, find-update_where_ne xs k l)
  ]

module _ {A : Type 0} (p q : A → Bool) (f : A → A) where
  -- An update that the query does not see leaves the row that it finds, updated where it is touched.
  pub find-update_where_kept :
      (xs : List A) (a : A)
      → ((x : A) → q (f x) ≡ q x)
      → find q xs ≡ some a
      → find q (update_where p f xs) ≡ some (if p a then f a else a)
  find-update_where_kept [] a k h = cc
  find-update_where_kept (x ∷ xs) a k h = elim (Bool-cases (q x)) [
    | inl e ↦ ground (arith, e, k x)
    | inr e ↦ ground (arith, e, k x, find-update_where_kept xs a k (ground (arith, e)))
  ]

abbrev pub one_if : Bool → ℕ
one_if true = 1
one_if false = 0

-- No two rows of the table are picked.
abbrev pub AtMostOne : {A : Type 0} → (A → Bool) → List A → Type 0
AtMostOne p [] = Unit {0}
AtMostOne p (x ∷ xs) = (p x ≡ true → find p xs ≡ none) × AtMostOne p xs

module _ {A : Type 0} (p q : A → Bool) where
  -- An update of the one row that is picked moves a count by that row alone.
  pub count-update_where :
      (f : A → A) (xs : List A) (a : A)
      → AtMostOne p xs
      → find p xs ≡ some a
      → count q (update_where p f xs) + one_if (q a) ≡ count q xs + one_if (q (f a))
  count-update_where f [] a u h = cc
  count-update_where f (x ∷ xs) a u h = elim (Bool-cases (p x)) [
    | inl e ↦ ground (arith, e, find-update_where-none p f xs (u.0 e))
    | inr e ↦ ground (arith, e, count-update_where f xs a u.1 (ground (arith, e)))
  ]

  pub count-pos : (xs : List A) (a : A) → find p xs ≡ some a → q a ≡ true → 1 ≤ count q xs
  count-pos [] a h k = cc
  count-pos (x ∷ xs) a h k = elim (Bool-cases (p x)) [
    | inl e ↦ ground (arith, e)
    | inr e ↦ ground (arith, e, count-pos xs a (ground (arith, e)) k)
  ]

module _ {A : Type 0} (p : A → Bool) where
  pub AtMostOne-none : (xs : List A) → find p xs ≡ none → AtMostOne p xs
  AtMostOne-none [] h = tt
  AtMostOne-none (x ∷ xs) h = ((λ e. ground arith), AtMostOne-none xs (ground arith))

  pub count-zero : (xs : List A) → count p xs ≡ 0 → find p xs ≡ none
  count-zero [] h = refl
  count-zero (x ∷ xs) h = ground (arith, count-zero xs)

  pub count-find-none : (xs : List A) → find p xs ≡ none → count p xs ≡ 0
  count-find-none [] h = refl
  count-find-none (x ∷ xs) h = ground (arith, count-find-none xs)

-- A row of the table.
abbrev pub In : {A : Type 0} → A → List A → Type 0
In a [] = ⊥
In a (x ∷ xs) = (a ≡ x) ⊎ In a xs

module _ {A : Type 0} (p : A → Bool) where
  pub find-In : (xs : List A) (a : A) → find p xs ≡ some a → In a xs
  find-In [] a h = cc
  find-In (x ∷ xs) a h = elim (Bool-cases (p x)) [
    | inl e ↦ inl (ground (arith, e))
    | inr e ↦ inr (find-In xs a (ground (arith, e)))
  ]

  pub select-In : (xs : List A) (a : A) → In a (select p xs) → In a xs × (p a ≡ true)
  select-In [] a h = absurd h
  select-In (x ∷ xs) a h = elim (Bool-cases (p x)) [
    | inl e ↦ elim (rw e at h) [
      | inl same ↦ (inl same, rw same e)
      | inr later ↦ let (i, q) = select-In xs a later in (inr i, q)
    ]
    | inr e ↦ let (i, q) = select-In xs a (rw e at h) in (inr i, q)
  ]

  pub select_empty : (xs : List A) → select p xs ≡ [] → count p xs ≡ 0
  select_empty [] h = refl
  select_empty (x ∷ xs) h = ground (arith, select_empty xs)

module _ {A : Type 0} (p : A → Bool) where
  pub In-find : (xs : List A) (a : A) → In a xs → p a ≡ true → is_some (find p xs) ≡ true
  In-find [] a h e = absurd h
  In-find (x ∷ xs) a h e = elim (Bool-cases (p x)) [
    | inl t ↦ ground (arith, t)
    | inr t ↦ elim h [
      | inl same ↦ ground (arith, t, e, ap p same)
      | inr later ↦ ground (arith, t, In-find xs a later e)
    ]
  ]

  -- A row that passes the test is found exactly where there is one.
  pub find_iff : (xs : List A) → (is_some (find p xs) ≡ true) ↔ ((a : A) × In a xs × (p a ≡ true))
  find_iff xs = (
    (λ h. elim (Option-cases (find p xs)) [
      | inl e ↦ ground (arith, e, h)
      | inr (a, e) ↦ (a, find-In p xs a e, find-holds p xs a e)
    ]),
    λ (a, i, e). In-find xs a i e,
  )

module _ {A : Type 0} (p q : A → Bool) where
  pub find-select :
      (xs : List A) → ((x : A) → p x ≡ true → q x ≡ true) → find p (select q xs) ≡ find p xs
  find-select [] k = refl
  find-select (x ∷ xs) k = elim (Bool-cases (p x)) [
    | inl e ↦ ground (arith, e, k x e)
    | inr e ↦ ground (arith, e, find-select xs k)
  ]
