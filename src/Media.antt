-- ===== src/Media.antt =====
-- src/media/media.service.ts: uploads, access to stored media, and the URLs of avatars.
pub mod Access
pub mod Urls
pub mod Storage
use intaektok_be.Prelude.{
  ℕ, suc, Bool, true, false, not, ◌&&◌, ◌||◌, Option, none, some, List, [], ◌∷◌, ◌++◌, map, Ident,
  Text, codes, text_eq, starts_with, ◌==◌, ltb, if◌then◌else◌, find, select, update_where, contains,
  dedup, truthy, opt_eq, is_some,
}
use intaektok_be.Prisma.{Media, Message, Room, RoomMember, Profile, MediaStatus}
use intaektok_be.Common.Errors.{forbidden, not_found, validation}
use intaektok_be.World.{
  World, Call, pure, throw, gets, or_throw, ◌>>=◌, ◌>>◌, throw_if, when, modify,
}
use intaektok_be.Env.{Env}
use intaektok_be.Messages.Checks.{in_room, find_media}

-- `EXT_BY_MIME`
abbrev ext_by_mime : List (Text × Text)
ext_by_mime =
    (codes "image/jpeg", codes "jpg")
    ∷ (codes "image/png", codes "png")
    ∷ (codes "image/gif", codes "gif")
    ∷ (codes "image/webp", codes "webp")
    ∷ (codes "image/apng", codes "apng")
    ∷ (codes "video/mp4", codes "mp4")
    ∷ (codes "video/webm", codes "webm")
    ∷ (codes "video/quicktime", codes "mov")
    ∷ []

abbrev text_lookup : Text → List (Text × Text) → Option Text
text_lookup t [] = none
text_lookup t ((k, v) ∷ es) = if text_eq t k then some v else text_lookup t es

abbrev or_bin : Option Text → Text
or_bin none = codes "bin"
or_bin (some e) = e

pub ext_for : Text → Text
ext_for mime = or_bin (text_lookup mime ext_by_mime)

-- `ANIMATED_MIME.has(mime) || mime.startsWith('video/')`
pub is_animated_mime : Text → Bool
is_animated_mime mime =
    (text_eq mime (codes "image/gif")
      || text_eq mime (codes "image/webp")
      || text_eq mime (codes "image/apng"))
    || starts_with mime (codes "video/")

pub record CreateUploadUrlDto : Type 0 where
  pub mime_type : Text
  pub byte_size : ℕ
  pub width : Option ℕ
  pub height : Option ℕ
  pub duration_ms : Option ℕ

pub record UploadUrl : Type 0 where
  pub media_id : Ident
  pub upload_url : Text
  pub storage_key : Text

-- `media/${yyyy}/${mm}/${uuid}.${ext}`
abbrev new_key : Env → Text → World → Text
new_key env mime w =
    codes "media/"
    ++ (env.year_month w.now ++ (codes "/" ++ (env.uuid w.issued ++ (codes "." ++ ext_for mime))))

abbrev pending_media : Env → Ident → CreateUploadUrlDto → World → Media
pending_media env uploader dto w = record {
  id = env.cuid w.issued;
  uploader_id = uploader;
  storage_key = new_key env dto.mime_type w;
  mime_type = dto.mime_type;
  byte_size = dto.byte_size;
  width = dto.width;
  height = dto.height;
  duration_ms = dto.duration_ms;
  is_animated = is_animated_mime dto.mime_type;
  thumbnail_key = none;
  status = MediaStatus.pending;
}

unfoldable pub create_upload_url : Env → Ident → CreateUploadUrlDto → Call UploadUrl
unfolding ext_for is_animated_mime
create_upload_url env uploader dto = do
  throw_if (ltb env.max_bytes dto.byte_size) (validation "파일 크기가 허용 한도를 초과했습니다.")
  m ← gets (pending_media env uploader dto)
  modify λ w. record w { media = m ∷ w.media; issued = suc w.issued }
  pure (record {
    media_id = m.id;
    upload_url = env.upload_url m.storage_key dto.mime_type;
    storage_key = m.storage_key;
  })

pub record MediaView : Type 0 where
  pub media_id : Ident
  pub url : Text
  pub thumbnail_url : Option Text
  pub mime_type : Text
  pub is_animated : Bool
  pub width : Option ℕ
  pub height : Option ℕ
  pub duration_ms : Option ℕ

-- `media.thumbnailKey ? await getReadUrl(thumbnailKey) : null`
abbrev thumbnail_of : Env → Option Text → Option Text
thumbnail_of env none = none
thumbnail_of env (some []) = none
thumbnail_of env (some (c ∷ cs)) = some (env.read_url (c ∷ cs))

unfoldable pub serialize : Env → Media → Text → MediaView
serialize env m url = record {
  media_id = m.id;
  url = url;
  thumbnail_url = thumbnail_of env m.thumbnail_key;
  mime_type = m.mime_type;
  is_animated = m.is_animated;
  width = m.width;
  height = m.height;
  duration_ms = m.duration_ms;
}

abbrev size_or : Option ℕ → ℕ → ℕ
size_or none n = n
size_or (some k) n = k

abbrev finished : Option ℕ → Media → Media
finished length m = record m { status = MediaStatus.ready; byte_size = size_or length m.byte_size }

unfoldable pub complete : Env → Ident → Ident → Call MediaView
unfolding serialize
complete env media_id requester = do
  found ← gets (find_media (some media_id))
  m ← or_throw found (not_found "미디어를 찾을 수 없습니다.")
  throw_if (not (m.uploader_id == requester)) (forbidden "권한이 없습니다.")
  length ← or_throw (env.head_object m.storage_key) (validation "업로드된 객체를 찾을 수 없습니다.")
  modify λ w. record w {
    media = update_where (λ (x : Media). x.id == media_id) (finished length) w.media;
  }
  pure (serialize env (finished length m) (env.download_url m.storage_key))

-- `members: { some: { userId, leftAt: null } }` on a room
unfoldable pub belongs_to : Ident → Ident → World → Bool
belongs_to room user w = is_some (find (λ r. in_room room r && r.user_id == user) w.members)

abbrev pub shared_in : Ident → Ident → World → Message → Bool
shared_in media_id user w m = opt_eq m.media_id (some media_id) && belongs_to m.room_id user w

abbrev pub avatar_of_room : Ident → Ident → World → Room → Bool
avatar_of_room media_id user w r =
    opt_eq r.avatar_media_id (some media_id) && belongs_to r.id user w

unfoldable pub can_access : Media → Ident → World → Bool
can_access m user w =
    m.uploader_id == user
    || (is_some (find (shared_in m.id user w) w.messages)
        || (is_some (find (λ (p : Profile). opt_eq p.avatar_media_id (some m.id)) w.profiles)
            || is_some (find (avatar_of_room m.id user w) w.rooms)))

unfoldable pub get_media : Env → Ident → Ident → Call MediaView
unfolding can_access serialize
get_media env media_id requester = do
  found ← gets (find_media (some media_id))
  m ← or_throw found (not_found "미디어를 찾을 수 없습니다.")
  allowed ← gets (can_access m requester)
  throw_if (not allowed) (forbidden "미디어에 접근할 권한이 없습니다.")
  pure (serialize env m (env.download_url m.storage_key))

unfoldable pub assert_owned_media : Option Ident → Ident → Call (Unit {0})
assert_owned_media media_id user = do
  found ← gets (find_media media_id)
  m ← or_throw found (not_found "미디어를 찾을 수 없습니다.")
  throw_if (not (m.uploader_id == user)) (forbidden "본인이 업로드한 미디어만 사용할 수 있습니다.")

unfoldable pub assert_owned_media_or_null : Option Ident → Ident → Call (Unit {0})
unfolding assert_owned_media
assert_owned_media_or_null media_id user = when (truthy media_id) (assert_owned_media media_id user)

abbrev pub read_url_of : Env → Option Media → Option Text
read_url_of env none = none
read_url_of env (some m) = some (env.read_url m.storage_key)

unfoldable pub resolve_avatar_url : Env → Option Ident → World → Option Text
resolve_avatar_url env media_id w =
    if truthy media_id then read_url_of env (find_media media_id w) else none

-- `mediaIds.filter((id) => !!id)`
abbrev pub truthy_ids : List (Option Ident) → List Ident
truthy_ids [] = []
truthy_ids (none ∷ is) = truthy_ids is
truthy_ids (some i ∷ is) = let rest = truthy_ids is in if i == 0 then rest else i ∷ rest

-- A `Map` from ids to URLs, the latest entry of a key first.
abbrev pub UrlMap : Type 0
UrlMap = List (Ident × Text)

abbrev pub set_urls : Env → List Media → UrlMap → UrlMap
set_urls env [] out = out
set_urls env (m ∷ ms) out = set_urls env ms ((m.id, env.read_url m.storage_key) ∷ out)

unfoldable pub map_get : Ident → UrlMap → Option Text
map_get i [] = none
map_get i ((k, v) ∷ es) = if k == i then some v else map_get i es

unfoldable pub resolve_avatar_urls : Env → List (Option Ident) → World → UrlMap
unfolding dedup
resolve_avatar_urls env media_ids w =
    let ids = dedup (truthy_ids media_ids) in
    set_urls env (select (λ (m : Media). contains ids m.id) w.media) []
