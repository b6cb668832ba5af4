-- ===== src/Media/Urls.antt =====
-- On `resolveAvatarUrls` (src/media/media.service.ts).
use intaektok_be.Prelude.{
  Bool, true, false, Option, none, some, List, [], ◌∷◌, Ident, Text, ◌==◌, find, select, contains,
  dedup, ◌≡◌, refl, ap, ◌∙◌, arith, Bool-cases, inl, inr, AtMostOne, In, find-select,
  contains-dedup,
}
use intaektok_be.Prisma.{Media}
use intaektok_be.World.{World}
use intaektok_be.Env.{Env}
use intaektok_be.Media.{
  UrlMap, map_get, set_urls, truthy_ids, read_url_of, resolve_avatar_url, resolve_avatar_urls,
}

abbrev pub has_id : Ident → Media → Bool
has_id i m = m.id == i

abbrev otherwise : Env → Option Media → Option Text → Option Text
otherwise env none old = old
otherwise env (some m) old = some (env.read_url m.storage_key)

map_get-set_urls :
    (env : Env) (i : Ident) (ms : List Media) (out : UrlMap)
    → AtMostOne (has_id i) ms
    → map_get i (set_urls env ms out) ≡ otherwise env (find (has_id i) ms) (map_get i out)
unfolding map_get
map_get-set_urls env i [] out u = refl
map_get-set_urls env i (m ∷ ms) out u = elim (Bool-cases (m.id == i)) [
  | inl e ↦
      map_get-set_urls env i ms ((m.id, env.read_url m.storage_key) ∷ out) u.1
      ∙ ground (arith, e, u.0 e)
  | inr e ↦
      map_get-set_urls env i ms ((m.id, env.read_url m.storage_key) ∷ out) u.1 ∙ ground (arith, e)
]

AtMostOne-select :
    (i : Ident) (q : Media → Bool) (ms : List Media)
    → AtMostOne (has_id i) ms
    → AtMostOne (has_id i) (select q ms)
AtMostOne-select i q [] u = tt
AtMostOne-select i q (m ∷ ms) u = elim (Bool-cases (q m)) [
  | inl e ↦ rw e ((λ t. absent ms (u.0 t)), AtMostOne-select i q ms u.1)
  | inr e ↦ rw e (AtMostOne-select i q ms u.1)
]
  where
    absent : (xs : List Media) → find (has_id i) xs ≡ none → find (has_id i) (select q xs) ≡ none
    absent [] h = refl
    absent (x ∷ xs) h = elim (Bool-cases (q x)) [
      | inl e ↦ ground (arith, e, absent xs (ground (arith, h)))
      | inr e ↦ ground (arith, e, absent xs (ground (arith, h)))
    ]

contains-truthy_ids :
    (is : List (Option Ident)) (i : Ident)
    → (i == 0) ≡ false
    → In (some i) is
    → contains (truthy_ids is) i ≡ true
contains-truthy_ids [] i k h = absurd h
contains-truthy_ids (none ∷ is) i k h = elim h [ inl e ↦ cc | inr e ↦ contains-truthy_ids is i k e ]
contains-truthy_ids (some j ∷ is) i k h = elim (Bool-cases (j == 0)) [
  | inl z ↦ elim h [ inl e ↦ ground (arith, z, k, e) | inr e ↦ rw z (contains-truthy_ids is i k e) ]
  | inr z ↦ elim h [
    | inl e ↦ ground (arith, z, k, e)
    | inr e ↦ ground (arith, z, contains-truthy_ids is i k e)
  ]
]

-- Where no two stored files have the id, looking an id up in the batch of URLs made for a list that
-- has it gives what resolving that id by itself gives.
pub resolve_avatar_urls-map_get :
    (env : Env) (is : List (Option Ident)) (i : Ident) (w : World)
    → AtMostOne (has_id i) w.media
    → (i == 0) ≡ false
    → In (some i) is
    → map_get i (resolve_avatar_urls env is w) ≡ resolve_avatar_url env (some i) w
unfolding resolve_avatar_urls resolve_avatar_url map_get
resolve_avatar_urls-map_get env is i w u k h =
    map_get-set_urls env i (select picked w.media) [] (AtMostOne-select i picked w.media u)
    ∙ rw (find-select (has_id i) picked w.media here, k) (agree (find (has_id i) w.media))
  where
    picked : Media → Bool
    picked m = contains (dedup (truthy_ids is)) m.id

    here : (m : Media) → (m.id == i) ≡ true → picked m ≡ true
    here m e =
        ap (contains (dedup (truthy_ids is))) (ground arith)
        ∙ contains-dedup (truthy_ids is) i
        ∙ contains-truthy_ids is i k h

    agree : (o : Option Media) → otherwise env o none ≡ read_url_of env o
    agree none = refl
    agree (some m) = refl
