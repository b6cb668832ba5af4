-- ===== src/Users/Search.antt =====
-- On `search` (src/users/users.service.ts).
use intaektok_be.Prelude.{
  ℕ, suc, ◌≤◌, true, Option, List, [], ◌∷◌, map, Ident, Text, ltb, if◌then◌else◌, select, take,
  length, All, In, ◌≡◌, refl, arith, Bool-cases, inl, inr, All-take, All-select, length-take,
}
use intaektok_be.Prisma.{Profile}
use intaektok_be.World.{World, ok}
use intaektok_be.Env.{Env}
use intaektok_be.Media.{UrlMap, resolve_avatar_urls}
use intaektok_be.Messages.History.{Paginated}
use intaektok_be.Users.{PublicUser, search, matches, order_asc, insert_asc, public_user, found_rows}

module _ (env : Env) (P : Profile → Type 0) where
  insert_asc-All : (p : Profile) (ps : List Profile) → P p → All P ps → All P (insert_asc env p ps)
  insert_asc-All p [] h k = (h, tt)
  insert_asc-All p (x ∷ xs) h k = elim (Bool-cases (env.db_le p.user_id x.user_id)) [
    | inl e ↦ rw e (h, k)
    | inr e ↦ rw e (k.0, insert_asc-All p xs h k.1)
  ]

  order_asc-All : (ps : List Profile) → All P ps → All P (order_asc env ps)
  order_asc-All [] h = tt
  order_asc-All (p ∷ ps) h = insert_asc-All p (order_asc env ps) h.0 (order_asc-All ps h.1)

module _ (env : Env) (requester : Ident) (q : Text) (cursor : Option Ident) (w : World) where
  -- A stored profile that the search is for.
  abbrev pub IsSought : Profile → Type 0
  IsSought p = In p w.profiles × (matches env requester q cursor w p ≡ true)

  -- The user of such a profile.
  abbrev pub IsFound : PublicUser → Type 0
  IsFound u = (p : Profile) × IsSought p × (u.id ≡ p.user_id) × (u.nickname ≡ p.nickname)

  found_rows-All : (limit : ℕ) → All IsSought (found_rows env requester q cursor limit w)
  found_rows-All limit = All-take IsSought (suc limit) (order_asc env sought) (
      order_asc-All env IsSought sought
        (All-select IsSought (matches env requester q cursor w) w.profiles (λ p i h. (i, h))))
    where
      sought : List Profile
      sought = select (matches env requester q cursor w) w.profiles

  shown-All :
      (urls : UrlMap) (ps : List Profile)
      → All IsSought ps
      → All IsFound (map (public_user urls) ps)
  shown-All urls [] h = tt
  shown-All urls (p ∷ ps) h = ((p, h.0, refl, refl), shown-All urls ps h.1)

  -- The rows of a page.
  abbrev cut : ℕ → List Profile → List Profile
  cut limit rows = if ltb limit (length rows) then take limit rows else rows

  cut-All : (limit : ℕ) (rows : List Profile) → All IsSought rows → All IsSought (cut limit rows)
  cut-All limit rows h = elim (Bool-cases (ltb limit (length rows))) [
    | inl e ↦ rw e (All-take IsSought limit rows h)
    | inr e ↦ rw e h
  ]

  length-shown :
      (urls : UrlMap) (ps : List Profile) → length (map (public_user urls) ps) ≡ length ps
  length-shown urls [] = refl
  length-shown urls (p ∷ ps) = ground (arith, length-shown urls ps)

  length-cut : (limit : ℕ) (rows : List Profile) → length (cut limit rows) ≤ limit
  length-cut limit rows = elim (Bool-cases (ltb limit (length rows))) [
    | inl e ↦ rw e (length-take limit rows)
    | inr e ↦ rw e (ground (arith, e))
  ]

  -- A search returns a page of at most as many users as it is asked for, each with a stored profile
  -- that matches: onboarded, of an active user other than the requester, with the text in its nickname
  -- and past the cursor; and it leaves the state as it was.
  pub search-All :
      (limit : ℕ)
      → (page : Paginated PublicUser) × (search env requester q cursor limit w ≡ (ok page, w))
        × All IsFound page.items
        × (length page.items ≤ limit)
  unfolding search
  search-All limit = (
    _,
    refl,
    shown-All urls (cut limit rows) (cut-All limit rows (found_rows-All limit)),
    rw (length-shown urls (cut limit rows)) (length-cut limit rows),
  )
    where
      rows : List Profile
      rows = found_rows env requester q cursor limit w

      urls : UrlMap
      urls = resolve_avatar_urls env (map (λ (p : Profile). p.avatar_media_id) (cut limit rows)) w
