-- ===== src/Media/Storage.antt =====
-- src/media/storage.service.ts: the URLs of stored objects.
pub mod Urls
use intaektok_be.Prelude.{
  ℕ, Bool, true, false, not, Option, none, some, [], ◌∷◌, ◌++◌, Ident, Text, is_empty,
  if◌then◌else◌, ◌==◌,
}
use intaektok_be.World.{World}
use intaektok_be.Env.{Env}
use intaektok_be.Config.{S3Config}

-- `getSignedUrl` of a GET and of a PUT with a content type, for a bucket, a key and a time in seconds,
-- and what `HeadObjectCommand` finds, with its length; `none` where it throws.
pub record S3Client : Type 0 where
  pub sign_get : Text → Text → ℕ → Text
  pub sign_put : Text → Text → Text → ℕ → Text
  pub head : Text → Text → Option (Option ℕ)

pub record Storage : Type 0 where
  pub s3 : S3Config
  pub cdn_base_url : Text
  pub client : S3Client

-- `replace(/\/$/, '')`
abbrev pub strip_slash : Text → Text
strip_slash [] = []
strip_slash (c ∷ cs) =
    let rest = strip_slash cs in if is_empty cs then (if c == 47 then [] else c ∷ []) else c ∷ rest

unfoldable pub get_upload_url : Storage → Text → Text → Text
get_upload_url s key content_type = s.client.sign_put s.s3.bucket key content_type 600

unfoldable pub get_download_url : Storage → Text → Text
get_download_url s key = s.client.sign_get s.s3.bucket key 3600

unfoldable pub build_public_url : Storage → Text → Text
build_public_url s key =
    if not (is_empty s.cdn_base_url)
    then strip_slash s.cdn_base_url ++ 47 ∷ key
    else strip_slash s.s3.public_endpoint ++ 47 ∷ s.s3.bucket ++ 47 ∷ key

unfoldable pub has_cdn : Storage → Bool
has_cdn s = not (is_empty s.cdn_base_url)

unfoldable pub get_read_url : Storage → Text → Text
get_read_url s key =
    if not (is_empty s.cdn_base_url) then build_public_url s key else get_download_url s key

-- A failure is logged, and no object.
unfoldable pub head_object : Storage → Text → Option (Option ℕ)
head_object s key = s.client.head s.s3.bucket key

-- The services over this storage.
unfoldable pub with_storage : Storage → Env → Env
with_storage s env = record env {
  read_url = get_read_url s;
  download_url = get_download_url s;
  upload_url = get_upload_url s;
  head_object = head_object s;
}
