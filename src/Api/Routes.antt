-- ===== src/Api/Routes.antt =====
-- The routes of src/**/*.controller.ts with their guards, and what answers a request: the guards, the
-- handler, and the exception filter.
use intaektok_be.Prelude.{ℕ, Option, List, Ident, Text}
use intaektok_be.Prisma.{MemberRole, Whitelist, WhitelistStatus, AccessRequest}
use intaektok_be.Common.Filter.{Response, service, catch}
use intaektok_be.Common.Views.{RoomView, SerializedMessage}
use intaektok_be.World.{World, Result, ok, err, Call, pure, ◌>>=◌, ◌>>◌}
use intaektok_be.Messages.History.{Paginated, Cursor}
use intaektok_be.Rooms.Create.{CreateRoomDto}
use intaektok_be.Rooms.Manage.{UpdateRoomDto}
use intaektok_be.Media.{CreateUploadUrlDto, UploadUrl, MediaView}
use intaektok_be.Auth.Session.{TokenPair}
use intaektok_be.Auth.Login.{LoginResult}
use intaektok_be.Auth.Me.{Me}
use intaektok_be.Admin.{CreateWhitelistDto, UpdateWhitelistDto}
use intaektok_be.Profile.{CreateProfileDto, UpdateProfileDto, ProfileView}
use intaektok_be.Push.{RegisterTokenDto}
use intaektok_be.Users.{PublicUser, UserProfile}
use intaektok_be.Api.{
  Server, Access, guards, Caller, nobody, run_guards, membership, CursorPaginationDto,
}
use intaektok_be.Api.Messages.{SendMessageDto, SentMessage}
use intaektok_be.Api.Accounts.{PushTokenResponse}

-- A request by its route, with its path's ids and what the validation pipe makes of query and body.
pub data Request : Type 0 where
  -- auth
  auth_kakao : Text → Text → Request
  auth_refresh auth_logout : Text → Request
  auth_me : Request
  -- profile, push/tokens
  profile_create : CreateProfileDto → Request
  profile_update : UpdateProfileDto → Request
  push_register : RegisterTokenDto → Request
  push_remove : Ident → Request
  -- users, media
  users_search : Text → CursorPaginationDto Ident → Request
  users_profile : Ident → Request
  media_upload_url : CreateUploadUrlDto → Request
  media_complete media_get : Ident → Request
  -- rooms
  rooms_list : CursorPaginationDto ℕ → Request
  rooms_create : CreateRoomDto → Request
  rooms_detail : Ident → Request
  rooms_update : Ident → UpdateRoomDto → Request
  rooms_add_members : Ident → List Ident → Request
  rooms_update_role : Ident → Ident → MemberRole → Request
  rooms_remove_member : Ident → Ident → Request
  -- rooms/:roomId
  messages_list : Ident → CursorPaginationDto Cursor → Request
  messages_send : Ident → SendMessageDto → Request
  messages_remove : Ident → Ident → Request
  messages_read : Ident → ℕ → Request
  -- admin/whitelist, admin/access-requests
  whitelist_create : CreateWhitelistDto → Request
  whitelist_list : Option WhitelistStatus → CursorPaginationDto ℕ → Request
  whitelist_update : Ident → UpdateWhitelistDto → Request
  whitelist_remove : Ident → Request
  requests_list : CursorPaginationDto ℕ → Request
  requests_approve requests_dismiss : Ident → Request

-- The body of a response; `empty` is that of status 204.
pub data Body : Type 0 where
  login : LoginResult → Body
  tokens : TokenPair → Body
  about_me : Me → Body
  profile : ProfileView → Body
  push_token : PushTokenResponse → Body
  users : Paginated PublicUser → Body
  user_profile : UserProfile → Body
  upload_url : UploadUrl → Body
  media : MediaView → Body
  rooms : Paginated RoomView → Body
  room_view : RoomView → Body
  messages : Paginated SerializedMessage → Body
  sent : SentMessage → Body
  entry : Whitelist → Body
  entries : Paginated Whitelist → Body
  access_requests : Paginated AccessRequest → Body
  empty : Body

-- `@UseGuards` of each controller, and of the routes that have guards of their own.
abbrev auth_access : Access
auth_access = Access.public

abbrev me_access : Access
me_access = Access.signed_in

abbrev profile_access : Access
profile_access = Access.signed_in

abbrev push_access : Access
push_access = Access.signed_in

abbrev users_access : Access
users_access = Access.ready

abbrev media_access : Access
media_access = Access.ready

abbrev rooms_access : Access
rooms_access = Access.ready

abbrev room_access : Access
room_access = Access.member

abbrev messages_access : Access
messages_access = Access.member

abbrev whitelist_access : Access
whitelist_access = Access.console

abbrev requests_access : Access
requests_access = Access.console

unfoldable pub access_of : Request → Access
access_of (auth_kakao _ _) = auth_access
access_of (auth_refresh _) = auth_access
access_of (auth_logout _) = auth_access
access_of auth_me = me_access
access_of (profile_create _) = profile_access
access_of (profile_update _) = profile_access
access_of (push_register _) = push_access
access_of (push_remove _) = push_access
access_of (users_search _ _) = users_access
access_of (users_profile _) = users_access
access_of (media_upload_url _) = media_access
access_of (media_complete _) = media_access
access_of (media_get _) = media_access
access_of (rooms_list _) = rooms_access
access_of (rooms_create _) = rooms_access
access_of (rooms_detail _) = room_access
access_of (rooms_update _ _) = room_access
access_of (rooms_add_members _ _) = room_access
access_of (rooms_update_role _ _ _) = room_access
access_of (rooms_remove_member _ _) = room_access
access_of (messages_list _ _) = messages_access
access_of (messages_send _ _) = messages_access
access_of (messages_remove _ _) = messages_access
access_of (messages_read _ _) = messages_access
access_of (whitelist_create _) = whitelist_access
access_of (whitelist_list _ _) = whitelist_access
access_of (whitelist_update _ _) = whitelist_access
access_of (whitelist_remove _) = whitelist_access
access_of (requests_list _) = requests_access
access_of (requests_approve _) = requests_access
access_of (requests_dismiss _) = requests_access

-- `req.params.roomId`, 0 where the path has none.
unfoldable pub room_of : Request → Ident
room_of (rooms_detail room) = room
room_of (rooms_update room _) = room
room_of (rooms_add_members room _) = room
room_of (rooms_update_role room _ _) = room
room_of (rooms_remove_member room _) = room
room_of (messages_list room _) = room
room_of (messages_send room _) = room
room_of (messages_remove room _) = room
room_of (messages_read room _) = room
room_of _ = 0

abbrev reply : {A : Type 0} → (A → Body) → Call A → Call Body
reply body m = do a ← m; pure (body a)

abbrev done : Call (Unit {0}) → Call Body
done m = do m; pure empty

-- The handler of a route, with what its guards attached.
unfoldable pub handle : Server → Caller → Request → Call Body
handle s c (auth_kakao code uri) = reply login (intaektok_be.Api.Accounts.kakao s code uri)
handle s c (auth_refresh t) = reply tokens (intaektok_be.Api.Accounts.refresh s t)
handle s c (auth_logout t) = done (intaektok_be.Api.Accounts.logout s t)
handle s c auth_me = reply about_me (intaektok_be.Api.Accounts.me s c.user_id)
handle s c (profile_create dto) =
    reply profile (intaektok_be.Api.Accounts.create_profile s c.user_id dto)
handle s c (profile_update dto) =
    reply profile (intaektok_be.Api.Accounts.update_profile s c.user_id dto)
handle s c (push_register dto) =
    reply push_token (intaektok_be.Api.Accounts.register s c.user_id dto)
handle s c (push_remove id) = done (intaektok_be.Api.Accounts.remove c.user_id id)
handle s c (users_search q page) =
    reply users (intaektok_be.Api.Directory.search s c.user_id q page)
handle s c (users_profile user) =
    reply user_profile (intaektok_be.Api.Directory.get_profile s c.user_id user)
handle s c (media_upload_url dto) =
    reply upload_url (intaektok_be.Api.Directory.create_upload_url s c.user_id dto)
handle s c (media_complete id) = reply media (intaektok_be.Api.Directory.complete s c.user_id id)
handle s c (media_get id) = reply media (intaektok_be.Api.Directory.get_media s c.user_id id)
handle s c (rooms_list q) = reply rooms (intaektok_be.Api.Rooms.list s c.user_id q)
handle s c (rooms_create dto) = reply room_view (intaektok_be.Api.Rooms.create s c.user_id dto)
handle s c (rooms_detail r) = reply room_view (intaektok_be.Api.Rooms.detail s c.user_id r)
handle s c (rooms_update r dto) =
    reply room_view (do m ← membership c; intaektok_be.Api.Rooms.update s r m dto)
handle s c (rooms_add_members r ids) =
    reply room_view (do m ← membership c; intaektok_be.Api.Rooms.add_members s r m ids)
handle s c (rooms_update_role r user role) =
    reply room_view (do m ← membership c; intaektok_be.Api.Rooms.update_member_role s r user m role)
handle s c (rooms_remove_member r user) =
    done (do m ← membership c; intaektok_be.Api.Rooms.remove_member s r user m)
handle s c (messages_list r q) = reply messages (intaektok_be.Api.Messages.list r q)
handle s c (messages_send r dto) = reply sent (intaektok_be.Api.Messages.send s r c.user_id dto)
handle s c (messages_remove r id) = done (intaektok_be.Api.Messages.remove s r id c.user_id)
handle s c (messages_read r seq) = done (intaektok_be.Api.Messages.read r c.user_id seq)
handle s c (whitelist_create dto) = reply entry (intaektok_be.Api.Whitelist.create s c.user_id dto)
handle s c (whitelist_list status page) =
    reply entries (intaektok_be.Api.Whitelist.list status page)
handle s c (whitelist_update id dto) = reply entry (intaektok_be.Api.Whitelist.update id dto)
handle s c (whitelist_remove id) = done (intaektok_be.Api.Whitelist.remove id)
handle s c (requests_list page) =
    reply access_requests (intaektok_be.Api.Whitelist.list_access_requests page)
handle s c (requests_approve id) = reply entry (intaektok_be.Api.Whitelist.approve s c.user_id id)
handle s c (requests_dismiss id) = done (intaektok_be.Api.Whitelist.dismiss id)

-- A request with its bearer token: the guards in their order, then the handler.
unfoldable pub serve : Server → Option Text → Request → Call Body
serve s token req = do
  c ← run_guards s token (room_of req) (guards (access_of req)) nobody
  handle s c req

-- `@HttpCode`, else 201 for a POST and 200 for the others.
unfoldable pub status_of : Request → ℕ
status_of (auth_logout _) = 204
status_of (profile_create _) = 201
status_of (push_register _) = 201
status_of (push_remove _) = 204
status_of (rooms_create _) = 201
status_of (rooms_add_members _ _) = 201
status_of (rooms_remove_member _ _) = 204
status_of (messages_send _ _) = 201
status_of (messages_remove _ _) = 204
status_of (messages_read _ _) = 204
status_of (whitelist_create _) = 201
status_of (whitelist_remove _) = 204
status_of (requests_approve _) = 201
status_of (requests_dismiss _) = 204
status_of _ = 200

pub data HttpReply : Type 0 where
  success : ℕ → Body → HttpReply
  failure : Response → HttpReply

abbrev pub replied : ℕ → Result Body → HttpReply
replied status (ok b) = success status b
replied status (err e) = failure (catch (service e))

unfoldable pub respond : Server → Option Text → Request → World → HttpReply × World
respond s token req w = let (r, w') = serve s token req w in (replied (status_of req) r, w')
