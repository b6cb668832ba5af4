-- ===== src/Config/Lists.antt =====
-- On `toList` (src/config/configuration.ts).
use intaektok_be.Prelude.{
  false, not, Option, some, List, [], ◌∷◌, map, Text, Bool-cases, select, All, trim, is_empty,
  join_with, Lacks, split_on-join_with, split_on-Lacks, trim_idem, trim-Lacks, ◌≡◌, refl, ap, ◌∙◌,
  inl, inr,
}
use intaektok_be.Config.{or_else, to_list}

-- An entry as a list has it: not empty, without a comma, and without white space at its ends.
abbrev pub IsEntry : Text → Type 0
IsEntry t = (is_empty t ≡ false) × Lacks 44 t × (trim t ≡ t)

kept-All :
    (ps : List Text)
    → All (Lacks 44) ps
    → All IsEntry (select (λ t. not (is_empty t)) (map trim ps))
kept-All [] h = tt
kept-All (p ∷ ps) (h, hs) = elim (Bool-cases (is_empty (trim p))) [
  | inl e ↦ rw e (kept-All ps hs)
  | inr e ↦ rw e ((e, trim-Lacks 44 p h, trim_idem p), kept-All ps hs)
]

kept-same : (ts : List Text) → All IsEntry ts → select (λ t. not (is_empty t)) (map trim ts) ≡ ts
kept-same [] h = refl
kept-same (t ∷ ts) ((e, l, q), h) = rw (q, e, kept-same ts h) refl

lacking : (ts : List Text) → All IsEntry ts → All (Lacks 44) ts
lacking [] h = tt
lacking (t ∷ ts) ((e, l, q), h) = (l, lacking ts h)

-- What is read from a variable is a list of entries, and a list of entries that is written into a
-- variable between commas is read back.
to_list-join_with :
    ((v : Option Text) → All IsEntry (to_list v))
    × ((ts : List Text) → All IsEntry ts → to_list (some (join_with 44 ts)) ≡ ts)
unfolding to_list trim
to_list-join_with = ((λ v. kept-All _ (split_on-Lacks 44 (or_else v []))), back)
  where
    back : (ts : List Text) → All IsEntry ts → to_list (some (join_with 44 ts)) ≡ ts
    back [] h = refl
    back (t ∷ ts) h =
        let l = lacking (t ∷ ts) h in
        ap (λ ps. select (λ u. not (is_empty u)) (map trim ps)) (split_on-join_with 44 t ts l.0 l.1)
        ∙ kept-same (t ∷ ts) h
