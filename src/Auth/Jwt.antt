-- ===== src/Auth/Jwt.antt =====
-- The tokens: the payloads of src/common/types.ts, and `JwtService`, which signs and verifies them.
use intaektok_be.Prelude.{ℕ, Bool, true, false, Option, Ident, Text}

pub data TokenKind : Type 0 where
  access refresh : TokenKind

-- `AccessTokenPayload` and `RefreshTokenPayload`; the first has no `jti`, for which 0 stands.
pub record TokenPayload : Type 0 where
  pub sub : Ident
  pub kind : TokenKind
  pub jti : Ident

abbrev pub is_access : TokenKind → Bool
is_access TokenKind.access = true
is_access _ = false

abbrev pub is_refresh : TokenKind → Bool
is_refresh TokenKind.refresh = true
is_refresh _ = false

-- `signAsync` and `verifyAsync` under the access and the refresh secret, `none` for a token that is
-- not valid, and `uuidv4` for the n-th `jti`.
pub record Jwt : Type 0 where
  pub sign_access : TokenPayload → Text
  pub sign_refresh : TokenPayload → Text
  pub verify_access : Text → Option TokenPayload
  pub verify_refresh : Text → Option TokenPayload
  pub new_jti : ℕ → Ident
