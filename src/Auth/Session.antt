-- ===== src/Auth/Session.antt =====
-- src/auth/auth.service.ts: the refresh tokens, whose `jti` is kept in Redis until it is used,
-- revoked or expires.
pub mod Rotation
use intaektok_be.Prelude.{
  ℕ, suc, Bool, true, false, not, ◌&&◌, Option, none, some, Ident, Text, ◌==◌, if◌then◌else◌, find,
}
use intaektok_be.Prisma.{User, is_active}
use intaektok_be.Common.Errors.{unauthorized}
use intaektok_be.World.{
  World, Result, ok, err, Call, pure, throw, gets, or_throw, ◌>>=◌, ◌>>◌, throw_if, modify,
}
use intaektok_be.Auth.Jwt.{Jwt, TokenPayload, TokenKind, is_refresh}

pub record TokenPair : Type 0 where
  pub access_token : Text
  pub refresh_token : Text

-- `set` and `del` on `refresh:{user}:{jti}`
abbrev pub set_refresh : Ident → Ident → Bool → World → World
set_refresh user jti live w = record w {
  refresh = λ u j. if u == user && j == jti then live else w.refresh u j;
}

-- `delByPattern` on `refresh:{user}:*`
abbrev pub drop_refresh : Ident → World → World
drop_refresh user w = record w { refresh = λ u j. if u == user then false else w.refresh u j }

unfoldable pub revoke_all_sessions : Ident → Call (Unit {0})
revoke_all_sessions user = modify (drop_refresh user)

abbrev pub access_payload : Ident → TokenPayload
access_payload user = record { sub = user; kind = TokenKind.access; jti = 0 }

abbrev pub refresh_payload : Ident → Ident → TokenPayload
refresh_payload user jti = record { sub = user; kind = TokenKind.refresh; jti = jti }

unfoldable pub issue_tokens : Jwt → Ident → Call TokenPair
issue_tokens jwt user = do
  jti ← gets (λ w. jwt.new_jti w.issued)
  modify λ w. record (set_refresh user jti true w) { issued = suc w.issued }
  pure (record {
    access_token = jwt.sign_access (access_payload user);
    refresh_token = jwt.sign_refresh (refresh_payload user jti);
  })

abbrev pub find_user : Ident → World → Option User
find_user user w = find (λ (u : User). u.id == user) w.users

-- `!user || user.status !== 'ACTIVE'`
abbrev pub is_inactive : Option User → Bool
is_inactive none = true
is_inactive (some u) = not (is_active u.status)

-- The path of a verified payload.
unfoldable pub refresh_verified : Jwt → TokenPayload → Call TokenPair
refresh_verified jwt p w =
    if not (is_refresh p.kind)
    then (err (unauthorized "인증이 필요합니다."), w)
    else if not (w.refresh p.sub p.jti)
    then (revoke_all_sessions p.sub >> throw (unauthorized "만료되었거나 이미 사용된 리프레시 토큰입니다.")) w
    else if is_inactive (find_user p.sub w)
    then (revoke_all_sessions p.sub >> throw (unauthorized "인증이 필요합니다.")) w
    else issue_tokens jwt p.sub (set_refresh p.sub p.jti false w)

unfoldable pub refresh : Jwt → Text → Call TokenPair
refresh jwt token = do
  p ← or_throw (jwt.verify_refresh token) (unauthorized "유효하지 않은 리프레시 토큰입니다.")
  refresh_verified jwt p

abbrev logout_of : Option TokenPayload → Call (Unit {0})
logout_of none = pure tt
logout_of (some p) =
    if not (is_refresh p.kind) then pure tt else modify (set_refresh p.sub p.jti false)

unfoldable pub logout : Jwt → Text → Call (Unit {0})
logout jwt token = logout_of (jwt.verify_refresh token)
