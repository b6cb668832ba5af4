-- ===== src/Prelude/Lists.antt =====
-- Laws of lists of ids, of lists that an order or a page is taken of, and of conjunctions of tests.
use Prim.Native.Nat.{ℕ, zero, suc, ◌≤◌}
use mathlib.Core.Path.{◌≡◌, refl, ap}
use mathlib.Core.Bool.{Bool, true, false, ◌&&◌, ◌||◌}
use mathlib.Core.Logic.{◌↔◌, ◌⊎◌, inl, inr}
use mathlib.Core.List.{List, [], ◌∷◌, map}
use native.Mathlib.Omega.{arith}
use intaektok_be.Prelude.Tests.{if◌then◌else◌, Bool-cases, is_some, ◌==◌}
use intaektok_be.Prelude.Tables.{find, select, take, length, All, contains, dedup, dedup_from}
use intaektok_be.Prelude.Rows.{In}

module _ {ℓ} {A : Type 0} (P : A → Type ℓ) where
  pub All-take : (n : ℕ) (xs : List A) → All P xs → All P (take n xs)
  All-take zero xs h = tt
  All-take (suc n) [] h = tt
  All-take (suc n) (x ∷ xs) h = (h.0, All-take n xs h.1)

  -- The rows that a query selects pass its test.
  pub All-select :
      (p : A → Bool) (xs : List A) → ((x : A) → In x xs → p x ≡ true → P x) → All P (select p xs)
  All-select p [] k = tt
  All-select p (x ∷ xs) k = elim (Bool-cases (p x)) [
    | inl e ↦ rw e (k x (inl refl) e, All-select p xs (λ y i. k y (inr i)))
    | inr e ↦ rw e (All-select p xs (λ y i. k y (inr i)))
  ]

pub length-take : {A : Type 0} (n : ℕ) (xs : List A) → length (take n xs) ≤ n
length-take zero xs = ground arith
length-take (suc n) [] = ground arith
length-take (suc n) (x ∷ xs) = ground (arith, length-take n xs)

-- The keys of the rows that pass a test.
pub contains-map-select :
    {A : Type 0} (key : A → ℕ) (q : A → Bool) (xs : List A) (k : ℕ)
    → contains (map key (select q xs)) k ≡ is_some (find (λ x. q x && key x == k) xs)
contains-map-select key q [] k = refl
contains-map-select key q (x ∷ xs) k = elim (Bool-cases (q x)) [
  | inl e ↦ ground (arith, e, contains-map-select key q xs k)
  | inr e ↦ ground (arith, e, contains-map-select key q xs k)
]

pub contains-select :
    (p : ℕ → Bool) (is : List ℕ) (u : ℕ) → contains (select p is) u ≡ (contains is u && p u)
contains-select p [] u = refl
contains-select p (i ∷ is) u = elim (Bool-cases (i == u)) [
  | inl e ↦ elim (Bool-cases (p i)) [
    | inl a ↦ ground (arith, e, a, same i u e)
    | inr a ↦ ground (arith, e, a, same i u e, contains-select p is u)
  ]
  | inr e ↦ elim (Bool-cases (p i)) [
    | inl a ↦ ground (arith, e, a, contains-select p is u)
    | inr a ↦ ground (arith, e, a, contains-select p is u)
  ]
]
  where
    same : (j v : ℕ) → (j == v) ≡ true → p j ≡ p v
    same j v e = ap p (ground arith)

-- A conjunction and a disjunction of tests, and the equality of two of them.
pub both : (a b : Bool) → ((a && b) ≡ true) ↔ ((a ≡ true) × (b ≡ true))
both true b = ((λ e. (refl, e)), λ h. h.1)
both false b = ((λ e. cc), λ h. cc)

pub either : (a b : Bool) → ((a || b) ≡ true) ↔ ((a ≡ true) ⊎ (b ≡ true))
either true b = ((λ e. inl refl), λ h. refl)
either false b = ((λ e. inr e), λ h. elim h [ inl e ↦ cc | inr e ↦ e ])

pub Bool_ext : (a b : Bool) → (a ≡ true) ↔ (b ≡ true) → a ≡ b
Bool_ext true true h = refl
Bool_ext true false h = let e = h.0 refl in cc
Bool_ext false true h = let e = h.1 refl in cc
Bool_ext false false h = refl

-- `[...new Set(ids)]` has the same ids, each once.
pub contains-dedup_from :
    (seen is : List ℕ) (b : ℕ)
    → contains (dedup_from seen is) b ≡ (if contains seen b then false else contains is b)
contains-dedup_from seen [] b = ground arith
contains-dedup_from seen (i ∷ is) b =
    ground (arith, contains-dedup_from seen is b, contains-dedup_from (i ∷ seen) is b)

pub contains-dedup : (is : List ℕ) (b : ℕ) → contains (dedup is) b ≡ contains is b
unfolding dedup
contains-dedup is b = contains-dedup_from [] is b

-- Each id is listed once.
abbrev pub Distinct : List ℕ → Type 0
Distinct [] = Unit {0}
Distinct (u ∷ us) = (contains us u ≡ false) × Distinct us

dedup_from-Distinct : (seen is : List ℕ) → Distinct (dedup_from seen is)
dedup_from-Distinct seen [] = tt
dedup_from-Distinct seen (i ∷ is) = elim (Bool-cases (contains seen i)) [
  | inl e ↦ rw e (dedup_from-Distinct seen is)
  | inr e ↦
      rw e (ground (arith, contains-dedup_from (i ∷ seen) is i), dedup_from-Distinct (i ∷ seen) is)
]

pub dedup-Distinct : (is : List ℕ) → Distinct (dedup is)
unfolding dedup
dedup-Distinct is = dedup_from-Distinct [] is

pub All-contains :
    (P : ℕ → Type 0) (us : List ℕ) → ((u : ℕ) → contains us u ≡ true → P u) → All P us
All-contains P [] k = tt
All-contains P (u ∷ us) k = (k u (ground arith), All-contains P us (λ v h. k v (ground (arith, h))))
