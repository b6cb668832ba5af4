-- ===== src/Api/Directory.antt =====
-- src/users/users.controller.ts and src/media/media.controller.ts
use intaektok_be.Prelude.{Ident, Text}
use intaektok_be.World.{Call}
use intaektok_be.Messages.History.{Paginated}
use intaektok_be.Media.{CreateUploadUrlDto, UploadUrl, MediaView}
use intaektok_be.Users.{PublicUser, UserProfile}
use intaektok_be.Api.{Server, CursorPaginationDto, or_default}

-- `search` with `q` and the page, whose limit the service defaults.
unfoldable pub search :
    Server → Ident → Text → CursorPaginationDto Ident → Call (Paginated PublicUser)
search s user q page = intaektok_be.Users.search s.env user q page.cursor (or_default page.limit 50)

unfoldable pub get_profile : Server → Ident → Ident → Call UserProfile
get_profile s requester user = intaektok_be.Users.get_profile s.env user requester

unfoldable pub create_upload_url : Server → Ident → CreateUploadUrlDto → Call UploadUrl
create_upload_url s user dto = intaektok_be.Media.create_upload_url s.env user dto

unfoldable pub complete : Server → Ident → Ident → Call MediaView
complete s user media_id = intaektok_be.Media.complete s.env media_id user

unfoldable pub get_media : Server → Ident → Ident → Call MediaView
get_media s user media_id = intaektok_be.Media.get_media s.env media_id user
