-- ===== src/Api.antt =====
-- The REST API, src/**/*.controller.ts: what a request passes before its handler runs, and what all
-- controllers share. A controller's handlers stand in the child module of its name, the routes and
-- what answers a request in Routes.
pub mod Rooms
pub mod Messages
pub mod Accounts
pub mod Directory
pub mod Whitelist
pub mod Health
pub mod Routes
pub mod Passing
pub mod Gate
pub mod Blocked
use intaektok_be.Prelude.{ℕ, Option, none, some, List, [], ◌∷◌, Ident, Text}
use intaektok_be.Common.Errors.{Error, unauthorized, thrown}
use intaektok_be.World.{Call, pure, throw, ◌>>=◌, ◌>>◌}
use intaektok_be.Env.{Env}
use intaektok_be.Auth.Jwt.{Jwt}
use intaektok_be.Auth.Kakao.{KakaoApi}
use intaektok_be.Auth.Guards.{
  authenticate, onboarded_guard, admin_guard, room_member_guard, ActiveMembership,
}

-- What the services are made with; `admins` is `admin.userIds` of the configuration.
pub record Server : Type 0 where
  pub env : Env
  pub jwt : Jwt
  pub kakao : KakaoApi
  pub admins : List Ident

-- The classes that `@UseGuards` names.
pub data Guard : Type 0 where
  jwt_auth onboarded admin room_member : Guard

-- The decorators of a route, those of its controller first.
pub data Access : Type 0 where
  public signed_in ready member console : Access

unfoldable pub guards : Access → List Guard
guards Access.public = []
guards Access.signed_in = Guard.jwt_auth ∷ []
guards Access.ready = Guard.jwt_auth ∷ Guard.onboarded ∷ []
guards Access.member = Guard.jwt_auth ∷ Guard.onboarded ∷ Guard.room_member ∷ []
guards Access.console = Guard.jwt_auth ∷ Guard.admin ∷ []

-- What guards attach to a request: `req.user` and `req.roomMember`. Before `JwtAuthGuard` has run
-- there is no user, for which 0 stands.
pub record Caller : Type 0 where
  pub user_id : Ident
  pub room_member : Option ActiveMembership

abbrev pub nobody : Caller
nobody = record { user_id = 0; room_member = none }

-- `ExtractJwt.fromAuthHeaderAsBearerToken()` finds a token or none.
unfoldable pub authenticate_bearer : Jwt → Option Text → Call Ident
authenticate_bearer jwt none = throw (unauthorized "유효하지 않거나 만료된 토큰입니다.")
authenticate_bearer jwt (some t) = authenticate jwt t

-- `canActivate`, with the token of the request and its `:roomId`.
unfoldable pub can_activate : Server → Option Text → Ident → Guard → Caller → Call Caller
can_activate s token room Guard.jwt_auth c = do
  user ← authenticate_bearer s.jwt token
  pure (record c { user_id = user })
can_activate s token room Guard.onboarded c = onboarded_guard c.user_id >> pure c
can_activate s token room Guard.admin c = admin_guard s.admins c.user_id >> pure c
can_activate s token room Guard.room_member c = do
  m ← room_member_guard room c.user_id
  pure (record c { room_member = some m })

unfoldable pub run_guards : Server → Option Text → Ident → List Guard → Caller → Call Caller
run_guards s token room [] c = pure c
run_guards s token room (g ∷ gs) c = do
  c' ← can_activate s token room g c
  run_guards s token room gs c'

abbrev pub attached : Option ActiveMembership → Call ActiveMembership
attached none = throw thrown
attached (some m) = pure m

-- `@RoomMembership()`: without its guard it is undefined, and a handler that reads it fails.
unfoldable pub membership : Caller → Call ActiveMembership
membership c = attached c.room_member

-- `CursorPaginationDto`, of a list whose cursors are of a given type.
pub record CursorPaginationDto (C : Type 0) : Type 0 where
  pub cursor : Option C
  pub limit : Option ℕ

-- An instance has a limit of 50 before the fields of the query are put into it.
unfoldable pub query_of : {C : Type 0} → Option C → Option ℕ → CursorPaginationDto C
query_of cursor none = record { cursor = cursor; limit = some 50 }
query_of cursor (some n) = record { cursor = cursor; limit = some n }

-- `limit ?? fallback`
abbrev pub or_default : Option ℕ → ℕ → ℕ
or_default none fallback = fallback
or_default (some n) _ = n
