-- ===== src/System/Accounts.antt =====
-- What holds of the users and of the whitelist over whole runs. Here: that rows are told apart by their
-- ids, which the database gives out, and by their Kakao ids.
pub mod Sound
pub mod Linked
pub mod Blocking
pub mod Login
pub mod Laws
use intaektok_be.Prelude.{
  ℕ, suc, ◌≤◌, ◌≡◌, ◌≢◌, ◌⊎◌, inl, inr, refl, sym, ap, ◌∙◌, subst, Bool, true, false, Option, none,
  some, List, [], ◌∷◌, Ident, ◌==◌, opt_eq, find, update_where, delete_where, if◌then◌else◌, In,
  arith, Bool-cases,
}

module _ {A : Type 0} where
  abbrev pub touched : (A → Bool) → (A → A) → A → A
  touched p f x = if p x then f x else x

  pub In-updated :
      (p : A → Bool) (f : A → A) (y : A) (xs : List A)
      → In y (update_where p f xs)
      → (x : A) × In x xs × (y ≡ touched p f x)
  In-updated p f y [] i = absurd i
  In-updated p f y (x ∷ xs) (inl e) = (x, inl refl, e)
  In-updated p f y (x ∷ xs) (inr i) = let (z, j, e) = In-updated p f y xs i in (z, inr j, e)

  pub In-touched :
      (p : A → Bool) (f : A → A) (x : A) (xs : List A)
      → In x xs
      → In (touched p f x) (update_where p f xs)
  In-touched p f x [] i = i
  In-touched p f x (y ∷ ys) (inl e) = inl (ap (touched p f) e)
  In-touched p f x (y ∷ ys) (inr i) = inr (In-touched p f x ys i)

  pub In-deleted : (p : A → Bool) (y : A) (xs : List A) → In y (delete_where p xs) → In y xs
  In-deleted p y [] i = i
  In-deleted p y (x ∷ xs) i = elim (Bool-cases (p x)) [
    | inl e ↦ inr (In-deleted p y xs (subst (λ b. In y (kept b x xs)) e i))
    | inr e ↦
        let here : (y ≡ x) ⊎ In y (delete_where p xs) = subst (λ b. In y (kept b x xs)) e i in
        elim here [ inl d ↦ inl d | inr j ↦ inr (In-deleted p y xs j) ]
  ]
    where
      kept : Bool → A → List A → List A
      kept b x xs = if b then delete_where p xs else x ∷ delete_where p xs

  pub find-misses : (p : A → Bool) (y : A) (xs : List A) → find p xs ≡ none → In y xs → p y ≡ false
  find-misses p y [] h i = absurd i
  find-misses p y (x ∷ xs) h i = elim (Bool-cases (p x)) [
    | inl e ↦ absurd (ground (arith, h, e))
    | inr e ↦ elim i [ inl s ↦ ap p s ∙ e | inr j ↦ find-misses p y xs (ground (arith, h, e)) j ]
  ]

-- No two rows have one key.
abbrev pub UniqueBy : {A : Type 0} → (A → Option Ident) → List A → Type 0
UniqueBy {A} key xs =
    (x y : A) (k : Ident) → In x xs → In y xs → key x ≡ some k → key y ≡ some k → x ≡ y

module _ {A : Type 0} (key : A → Option Ident) where
  update-UniqueBy :
      (p : A → Bool) (f : A → A) (xs : List A)
      → ((x : A) → key (f x) ≡ key x)
      → UniqueBy key xs
      → UniqueBy key (update_where p f xs)
  update-UniqueBy p f xs same u x y k i j a b =
      let (x', i', e) = In-updated p f x xs i in
      let (y', j', d) = In-updated p f y xs j in
      e
      ∙ ap (touched p f) (
          u x' y' k i' j' (sym (kept x') ∙ sym (ap key e) ∙ a) (sym (kept y') ∙ sym (ap key d) ∙ b))
      ∙ sym d
    where
      kept : (z : A) → key (touched p f z) ≡ key z
      kept z = elim (Bool-cases (p z)) [ inl e ↦ rw e (same z) | inr e ↦ rw e refl ]

  cons-UniqueBy :
      (x : A) (xs : List A)
      → ((y : A) (k : Ident) → In y xs → key x ≡ some k → key y ≢ some k)
      → UniqueBy key xs
      → UniqueBy key (x ∷ xs)
  cons-UniqueBy x xs new u a b k (inl e) (inl d) p q = e ∙ sym d
  cons-UniqueBy x xs new u a b k (inl e) (inr j) p q = absurd (new b k j (sym (ap key e) ∙ p) q)
  cons-UniqueBy x xs new u a b k (inr i) (inl d) p q = absurd (new a k i (sym (ap key d) ∙ q) p)
  cons-UniqueBy x xs new u a b k (inr i) (inr j) p q = u a b k i j p q

-- The rows of a table whose ids come from the database's counter.
pub record Keyed (cuid : ℕ → Ident) {A : Type 0} (id : A → Ident) (kakao : A → Option Ident)
    (issued : ℕ) (xs : List A) : Type 0 where
  pub by_id : UniqueBy (λ (x : A). some (id x)) xs
  pub by_kakao : UniqueBy kakao xs
  pub old : (x : A) (n : ℕ) → In x xs → issued ≤ n → id x ≢ cuid n

module _ (cuid : ℕ → Ident) {A : Type 0} (id : A → Ident) (kakao : A → Option Ident) where
  pub later-Keyed :
      (n m : ℕ) (xs : List A) → n ≤ m → Keyed cuid id kakao n xs → Keyed cuid id kakao m xs
  later-Keyed n m xs le k = record {
    by_id = k.by_id;
    by_kakao = k.by_kakao;
    old = λ x i here h. k.old x i here (omega (arith, le, h));
  }

  pub update-Keyed :
      (p : A → Bool) (f : A → A) (n : ℕ) (xs : List A)
      → ((x : A) → (id (f x) ≡ id x) × (kakao (f x) ≡ kakao x))
      → Keyed cuid id kakao n xs
      → Keyed cuid id kakao n (update_where p f xs)
  update-Keyed p f n xs same k = record {
    by_id =
        update-UniqueBy (λ (x : A). some (id x)) p f xs (λ x. ap (λ (i : Ident). some i) (same x).0)
          k.by_id;
    by_kakao = update-UniqueBy kakao p f xs (λ x. (same x).1) k.by_kakao;
    old = λ y i here h.
        let (x, j, e) = In-updated p f y xs here in
        λ d. k.old x i j h (sym (kept x) ∙ sym (ap id e) ∙ d);
  }
    where
      kept : (z : A) → id (touched p f z) ≡ id z
      kept z = elim (Bool-cases (p z)) [ inl e ↦ rw e ((same z).0) | inr e ↦ rw e refl ]

  pub delete-Keyed :
      (p : A → Bool) (n : ℕ) (xs : List A)
      → Keyed cuid id kakao n xs
      → Keyed cuid id kakao n (delete_where p xs)
  delete-Keyed p n xs k = record {
    by_id = λ x y a i j. k.by_id x y a (In-deleted p x xs i) (In-deleted p y xs j);
    by_kakao = λ x y a i j. k.by_kakao x y a (In-deleted p x xs i) (In-deleted p y xs j);
    old = λ x i here. k.old x i (In-deleted p x xs here);
  }

  pub cons-Keyed :
      (x : A) (n : ℕ) (xs : List A)
      → ((a b : ℕ) → cuid a ≡ cuid b → a ≡ b)
      → id x ≡ cuid n
      → ((y : A) (k : Ident) → In y xs → kakao x ≡ some k → kakao y ≢ some k)
      → Keyed cuid id kakao n xs
      → Keyed cuid id kakao (suc n) (x ∷ xs)
  cons-Keyed x n xs distinct e new k = record {
    by_id =
        cons-UniqueBy (λ (x : A). some (id x)) x xs
          (λ y a j p q. k.old y n j (omega arith) (same y a p q)) k.by_id;
    by_kakao = cons-UniqueBy kakao x xs new k.by_kakao;
    old = older;
  }
    where
      same : (y : A) (a : Ident) → some (id x) ≡ some a → some (id y) ≡ some a → id y ≡ cuid n
      same y a p q = cc

      older : (y : A) (i : ℕ) → In y (x ∷ xs) → suc n ≤ i → id y ≢ cuid i
      older y i (inl d) h q =
          let m = distinct n i (sym e ∙ sym (ap id d) ∙ q) in absurd (omega (arith, m, h))
      older y i (inr j) h q = k.old y i j (omega (arith, h)) q
