-- ===== src/Auth/Kakao.antt =====
-- src/auth/kakao.service.ts: what is made of the replies of Kakao's endpoints.
use intaektok_be.Prelude.{Bool, true, false, Option, none, some, [], ◌∷◌, Ident, Text}
use intaektok_be.Common.Errors.{unauthorized, thrown}
use intaektok_be.World.{Call, pure, throw, or_throw, ◌>>=◌, ◌>>◌, throw_if}

-- A `fetch`: it rejects, or replies with its `ok` flag and its body.
pub data Fetch (A : Type 0) : Type 0 where
  rejected : Fetch A
  replied : Bool → A → Fetch A

-- The body of `/v2/user/me`.
pub record UserBody : Type 0 where
  pub id : Option Ident
  pub account_nickname : Option Text
  pub account_image : Option Text
  pub property_nickname : Option Text
  pub property_image : Option Text

pub record KakaoUserInfo : Type 0 where
  pub kakao_id : Ident
  pub nickname : Option Text
  pub profile_image_url : Option Text

-- The configured key and the two endpoints, by the code and the redirect URI, and by the token; the
-- body of the first is its `access_token`, and a body that is no JSON is `none`.
pub record KakaoApi : Type 0 where
  pub rest_api_key : Text
  pub token : Text → Text → Fetch (Option Text)
  pub user_me : Text → Fetch (Option UserBody)

abbrev is_empty : Text → Bool
is_empty [] = true
is_empty (_ ∷ _) = false

-- `!res.ok || !data.access_token`
abbrev token_of : Fetch (Option Text) → Call Text
token_of rejected = throw (unauthorized "카카오 인증에 실패했습니다.")
token_of (replied true (some (c ∷ cs))) = pure (c ∷ cs)
token_of (replied _ _) = throw (unauthorized "유효하지 않거나 만료된 카카오 인가 코드입니다.")

unfoldable pub exchange_code_for_token : KakaoApi → Text → Text → Call Text
exchange_code_for_token api code redirect_uri = do
  throw_if (is_empty api.rest_api_key) (unauthorized "카카오 로그인 설정이 올바르지 않습니다.")
  token_of (api.token code redirect_uri)

-- `a ?? b`
abbrev or_else : Option Text → Option Text → Option Text
or_else none b = b
or_else (some a) b = some a

abbrev info_of : Ident → UserBody → KakaoUserInfo
info_of id body = record {
  kakao_id = id;
  nickname = or_else body.account_nickname body.property_nickname;
  profile_image_url = or_else body.account_image body.property_image;
}

abbrev user_of : Fetch (Option UserBody) → Call KakaoUserInfo
user_of rejected = throw (unauthorized "카카오 인증에 실패했습니다.")
user_of (replied false _) = throw (unauthorized "유효하지 않은 카카오 토큰입니다.")
user_of (replied true none) = throw thrown
user_of (replied true (some body)) = do
  id ← or_throw body.id (unauthorized "카카오 사용자 정보를 확인할 수 없습니다.")
  pure (info_of id body)

unfoldable pub get_user_info : KakaoApi → Text → Call KakaoUserInfo
get_user_info api token = user_of (api.user_me token)
