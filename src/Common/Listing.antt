-- ===== src/Common/Listing.antt =====
-- What the lists by time share: the order, the bound of the cursor and the page. A cursor is an ISO
-- time, that is a number of milliseconds.
use intaektok_be.Prelude.{
  ℕ, suc, Bool, true, Option, none, some, List, [], ◌∷◌, ltb, leb, if◌then◌else◌, select, take,
  length,
}

module _ {A : Type 0} (time : A → ℕ) where
  abbrev pub insert_latest : A → List A → List A
  insert_latest x [] = x ∷ []
  insert_latest x (y ∷ ys) = if leb (time y) (time x) then x ∷ y ∷ ys else y ∷ insert_latest x ys

  -- `orderBy: { createdAt: 'desc' }`
  abbrev pub latest_first : List A → List A
  latest_first [] = []
  latest_first (x ∷ xs) = insert_latest x (latest_first xs)

  -- `createdAt: { lt: new Date(cursor) }`
  abbrev pub is_older : Option ℕ → A → Bool
  is_older none x = true
  is_older (some c) x = ltb (time x) c

  -- The rows of a query, one more than the page has.
  abbrev pub query : (A → Bool) → Option ℕ → ℕ → List A → List A
  query p cursor limit xs = take (suc limit) (latest_first (select (is_older cursor) (select p xs)))

  abbrev pub last_time : List A → Option ℕ
  last_time [] = none
  last_time (x ∷ []) = some (time x)
  last_time (x ∷ y ∷ ys) = last_time (y ∷ ys)

  abbrev pub page : ℕ → List A → List A
  page limit rows = if ltb limit (length rows) then take limit rows else rows

  abbrev pub next : ℕ → List A → Option ℕ
  next limit rows = if ltb limit (length rows) then last_time (page limit rows) else none
