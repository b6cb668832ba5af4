-- ===== src/Api/Whitelist.antt =====
-- src/admin/admin.controller.ts and src/admin/access-request.controller.ts
use intaektok_be.Prelude.{ℕ, Option, Ident}
use intaektok_be.Prisma.{Whitelist, WhitelistStatus, AccessRequest}
use intaektok_be.World.{Call}
use intaektok_be.Messages.History.{Paginated}
use intaektok_be.Admin.{CreateWhitelistDto, UpdateWhitelistDto}
use intaektok_be.Api.{Server, CursorPaginationDto, or_default}

unfoldable pub create : Server → Ident → CreateWhitelistDto → Call Whitelist
create s user dto = intaektok_be.Admin.create s.env dto user

-- `list`, whose limit the service defaults.
unfoldable pub list : Option WhitelistStatus → CursorPaginationDto ℕ → Call (Paginated Whitelist)
list status page = intaektok_be.Admin.Listing.list status page.cursor (or_default page.limit 50)

unfoldable pub update : Ident → UpdateWhitelistDto → Call Whitelist
update id dto = intaektok_be.Admin.update id dto

unfoldable pub remove : Ident → Call (Unit {0})
remove id = intaektok_be.Admin.remove id

unfoldable pub list_access_requests : CursorPaginationDto ℕ → Call (Paginated AccessRequest)
list_access_requests page =
    intaektok_be.Admin.Listing.list_access_requests page.cursor (or_default page.limit 50)

unfoldable pub approve : Server → Ident → Ident → Call Whitelist
approve s user id = intaektok_be.Admin.approve_access_request s.env id user

unfoldable pub dismiss : Ident → Call (Unit {0})
dismiss id = intaektok_be.Admin.dismiss_access_request id
