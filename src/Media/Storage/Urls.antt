-- ===== src/Media/Storage/Urls.antt =====
-- On the URLs that src/media/storage.service.ts hands out through src/media/media.service.ts.
use intaektok_be.Prelude.{
  false, some, [], ◌∷◌, ◌++◌, Ident, Text, is_empty, ◌==◌, ◌≡◌, refl, ap, sym, ◌∙◌, arith,
}
use intaektok_be.Prisma.{Media}
use intaektok_be.World.{World}
use intaektok_be.Env.{Env}
use intaektok_be.Media.{resolve_avatar_url, find_media}
use intaektok_be.Media.Storage.{
  S3Client, Storage, strip_slash, build_public_url, get_read_url, get_download_url, with_storage,
}

append_cancel : (p a b : Text) → p ++ a ≡ p ++ b → a ≡ b
append_cancel [] a b h = h
append_cancel (c ∷ cs) a b h = append_cancel cs a b (ground (arith, h))

strip_slash_one : (t : Text) → strip_slash (t ++ 47 ∷ []) ≡ t
strip_slash_one [] = refl
strip_slash_one (c ∷ cs) = ground (arith, strip_slash_one cs)

abbrev pub at_cdn : Text → Storage → Storage
at_cdn base s = record s { cdn_base_url = base }

non_empty : (t u : Text) → is_empty (t ++ 47 ∷ u) ≡ false
non_empty [] u = refl
non_empty (c ∷ cs) u = refl

public :
    (s : Storage) (base key : Text)
    → is_empty base ≡ false
    → get_read_url (at_cdn base s) key ≡ strip_slash base ++ 47 ∷ key
unfolding get_read_url build_public_url
public s base key h = rw h refl

cons_injective : (a b : Text) → 47 ∷ a ≡ 47 ∷ b → a ≡ b
cons_injective a b h = cc

module _ (s : Storage) (base : Text) (has_base : is_empty base ≡ false) where
  -- With a CDN the read URL of an object is that of its key below the base, whatever the client of the
  -- store signs; a slash at the end of the base changes nothing, and no two keys share a URL. Without a
  -- CDN it is a URL that the client signs for the object, for one hour. The URL of an avatar is the
  -- read URL of its object.
  get_read_url_lem :
      ((key : Text) → get_read_url (at_cdn (base ++ 47 ∷ []) s) key ≡ base ++ 47 ∷ key)
      × ((client : S3Client) (key : Text)
          → get_read_url (at_cdn base (record s { client = client })) key
            ≡ get_read_url (at_cdn base s) key)
      × ((a b : Text) → get_read_url (at_cdn base s) a ≡ get_read_url (at_cdn base s) b → a ≡ b)
      × ((key : Text) → get_read_url (at_cdn [] s) key ≡ s.client.sign_get s.s3.bucket key 3600)
      × ((env : Env) (id : Ident) (m : Media) (w : World)
          → (id == 0) ≡ false
          → find_media (some id) w ≡ some m
          → resolve_avatar_url (with_storage s env) (some id) w
            ≡ some (get_read_url s m.storage_key))
  unfolding with_storage resolve_avatar_url get_download_url get_read_url
  get_read_url_lem = (
    (λ key.
        public s (base ++ 47 ∷ []) key (non_empty base [])
        ∙ ap (λ t. t ++ 47 ∷ key) (strip_slash_one base)),
    (λ client key.
        public (record s { client = client }) base key has_base ∙ sym (public s base key has_base)),
    (λ a b h. cons_injective a b (
        append_cancel (strip_slash base) (47 ∷ a) (47 ∷ b)
          (sym (public s base a has_base) ∙ h ∙ public s base b has_base))),
    (λ key. refl),
    λ env id m w n f. rw (n, f) refl,
  )
