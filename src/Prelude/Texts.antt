-- ===== src/Prelude/Texts.antt =====
-- What the program does with texts beyond comparing them: white space, splitting and joining.
use Prim.Native.Nat.{ℕ, ◌+◌}
use mathlib.Core.Path.{◌≡◌, refl, ap, ◌∙◌}
use mathlib.Core.Logic.{inl, inr}
use mathlib.Core.Bool.{Bool, true, false, ◌&&◌, ◌||◌}
use mathlib.Core.List.{List, [], ◌∷◌, ◌++◌}
use native.Mathlib.Omega.{arith}
use intaektok_be.Prelude.Tests.{Text, leb, ◌==◌, if◌then◌else◌, Bool-cases}
use intaektok_be.Prelude.Tables.{All, contains}

-- White space and line terminators of ECMAScript, which `String.trim` strips.
abbrev pub is_space : ℕ → Bool
is_space c =
    (leb 9 c && leb c 13)
    || c == 32
    || c == 160
    || c == 5760
    || (leb 8192 c && leb c 8202)
    || c == 8232
    || c == 8233
    || c == 8239
    || c == 8287
    || c == 12288
    || c == 65279

abbrev pub is_empty : Text → Bool
is_empty [] = true
is_empty (_ ∷ _) = false

abbrev pub trim_start : Text → Text
trim_start [] = []
trim_start (c ∷ cs) = let rest = trim_start cs in if is_space c then rest else c ∷ cs

abbrev pub trim_end : Text → Text
trim_end [] = []
trim_end (c ∷ cs) = let rest = trim_end cs in if is_space c && is_empty rest then [] else c ∷ rest

-- `trim`
unfoldable pub trim : Text → Text
trim t = trim_end (trim_start t)

abbrev add_first : ℕ → List Text → List Text
add_first c [] = (c ∷ []) ∷ []
add_first c (p ∷ ps) = (c ∷ p) ∷ ps

-- `split` by a single code unit
abbrev pub split_on : ℕ → Text → List Text
split_on sep [] = [] ∷ []
split_on sep (c ∷ cs) =
    let rest = split_on sep cs in if c == sep then [] ∷ rest else add_first c rest

-- `join` with a single code unit
abbrev pub join_with : ℕ → List Text → Text
join_with sep [] = []
join_with sep (t ∷ []) = t
join_with sep (t ∷ u ∷ us) = t ++ sep ∷ join_with sep (u ∷ us)

-- `toLowerCase`, for a comparison with letters of ASCII that no other letter becomes.
abbrev pub lower : Text → Text
lower [] = []
lower (c ∷ cs) = (if leb 65 c && leb c 90 then c + 32 else c) ∷ lower cs

-- The text does not have the code unit.
abbrev pub Lacks : ℕ → Text → Type 0
Lacks c t = contains t c ≡ false

module _ (sep : ℕ) where
  pub split_on-append :
      (t rest : Text) → Lacks sep t → split_on sep (t ++ sep ∷ rest) ≡ t ∷ split_on sep rest
  split_on-append [] rest h = ground arith
  split_on-append (c ∷ cs) rest h = ground (arith, h, split_on-append cs rest (ground (arith, h)))

  pub split_on_one : (t : Text) → Lacks sep t → split_on sep t ≡ t ∷ []
  split_on_one [] h = refl
  split_on_one (c ∷ cs) h = ground (arith, h, split_on_one cs (ground (arith, h)))

  pub split_on-join_with :
      (t : Text) (ts : List Text)
      → Lacks sep t
      → All (Lacks sep) ts
      → split_on sep (join_with sep (t ∷ ts)) ≡ t ∷ ts
  split_on-join_with t [] h k = split_on_one t h
  split_on-join_with t (u ∷ us) h (k, ks) =
      split_on-append t (join_with sep (u ∷ us)) h ∙ ap (λ r. t ∷ r) (split_on-join_with u us k ks)

  add_first-Lacks :
      (c : ℕ) (ps : List Text)
      → (c == sep) ≡ false
      → All (Lacks sep) ps
      → All (Lacks sep) (add_first c ps)
  add_first-Lacks c [] h k = (ground (arith, h), tt)
  add_first-Lacks c (p ∷ ps) h (k, ks) = (ground (arith, h, k), ks)

  pub split_on-Lacks : (t : Text) → All (Lacks sep) (split_on sep t)
  split_on-Lacks [] = (refl, tt)
  split_on-Lacks (c ∷ cs) = elim (Bool-cases (c == sep)) [
    | inl e ↦ rw e (refl, split_on-Lacks cs)
    | inr e ↦ rw e (add_first-Lacks c (split_on sep cs) e (split_on-Lacks cs))
  ]

trim_end_idem : (t : Text) → trim_end (trim_end t) ≡ trim_end t
trim_end_idem [] = refl
trim_end_idem (c ∷ cs) = ground (arith, trim_end_idem cs)

trim_start-trim_end : (t : Text) → trim_start (trim_end (trim_start t)) ≡ trim_end (trim_start t)
trim_start-trim_end [] = refl
trim_start-trim_end (c ∷ cs) = elim (Bool-cases (is_space c)) [
  | inl e ↦ rw e (trim_start-trim_end cs)
  | inr e ↦ ground (arith, e)
]

-- Trimming again changes nothing.
pub trim_idem : (t : Text) → trim (trim t) ≡ trim t
unfolding trim
trim_idem t = ap trim_end (trim_start-trim_end t) ∙ trim_end_idem (trim_start t)

module _ (sep : ℕ) where
  trim_start-Lacks : (t : Text) → Lacks sep t → Lacks sep (trim_start t)
  trim_start-Lacks [] h = h
  trim_start-Lacks (c ∷ cs) h = ground (arith, h, trim_start-Lacks cs (ground (arith, h)))

  trim_end-Lacks : (t : Text) → Lacks sep t → Lacks sep (trim_end t)
  trim_end-Lacks [] h = h
  trim_end-Lacks (c ∷ cs) h = ground (arith, h, trim_end-Lacks cs (ground (arith, h)))

  pub trim-Lacks : (t : Text) → Lacks sep t → Lacks sep (trim t)
  unfolding trim
  trim-Lacks t h = trim_end-Lacks (trim_start t) (trim_start-Lacks t h)
