-- ===== src/Config.antt =====
-- src/config/configuration.ts: what the server is configured with, from the variables of the process.
-- `Number(v)` of a text, where it is finite, is a parameter, with its type of numbers.
pub mod Lists
pub mod Validation
pub mod Production
pub mod Startup
use intaektok_be.Prelude.{
  ℕ, Bool, not, Option, none, some, List, [], ◌∷◌, map, Text, codes, text_eq, select, trim,
  is_empty, split_on,
}

-- The variables of `process.env` that the server reads; `none` is undefined.
pub record Variables : Type 0 where
  pub node_env : Option Text
  pub port : Option Text
  pub database_url : Option Text
  pub redis_url : Option Text
  pub jwt_access_secret : Option Text
  pub jwt_refresh_secret : Option Text
  pub jwt_access_ttl : Option Text
  pub jwt_refresh_ttl : Option Text
  pub kakao_rest_api_key : Option Text
  pub kakao_client_secret : Option Text
  pub kakao_token_url : Option Text
  pub kakao_userinfo_url : Option Text
  pub s3_endpoint : Option Text
  pub s3_public_endpoint : Option Text
  pub s3_bucket : Option Text
  pub s3_access_key : Option Text
  pub s3_secret_key : Option Text
  pub s3_region : Option Text
  pub s3_force_path_style : Option Text
  pub cdn_base_url : Option Text
  pub fcm_service_account_json : Option Text
  pub fcm_service_account : Option Text
  pub message_unsend_window_sec : Option Text
  pub media_max_bytes : Option Text
  pub presence_ttl_sec : Option Text
  pub cors_origins : Option Text
  pub throttle_ttl : Option Text
  pub throttle_limit : Option Text
  pub admin_user_ids : Option Text
  pub whitelist_bootstrap_kakao_ids : Option Text

pub record JwtConfig (N : Type 0) : Type 0 where
  pub access_secret : Text
  pub refresh_secret : Text
  pub access_ttl : N
  pub refresh_ttl : N

pub record KakaoConfig : Type 0 where
  pub rest_api_key : Text
  pub client_secret : Text
  pub token_url : Text
  pub user_info_url : Text

pub record S3Config : Type 0 where
  pub endpoint : Text
  pub public_endpoint : Text
  pub bucket : Text
  pub access_key : Text
  pub secret_key : Text
  pub region : Text
  pub force_path_style : Bool

pub record FcmConfig : Type 0 where
  pub service_account_json : Text
  pub service_account : Text

pub record PolicyConfig (N : Type 0) : Type 0 where
  pub message_unsend_window_sec : N
  pub media_max_bytes : N
  pub presence_ttl_sec : N

pub record ThrottleConfig (N : Type 0) : Type 0 where
  pub ttl : N
  pub limit : N

pub record AppConfig (N : Type 0) : Type 0 where
  pub node_env : Text
  pub port : N
  pub database_url : Text
  pub redis_url : Text
  pub jwt : JwtConfig N
  pub kakao : KakaoConfig
  pub s3 : S3Config
  pub cdn_base_url : Text
  pub fcm : FcmConfig
  pub policy : PolicyConfig N
  pub cors_origins : List Text
  pub throttle : ThrottleConfig N
  pub admin_user_ids : List Text
  pub bootstrap_kakao_ids : List Text

-- `v ?? fallback`
abbrev pub or_else : {A : Type 0} → Option A → A → A
or_else none fallback = fallback
or_else (some v) _ = v

-- An empty text, of which `Number` makes 0, counts as none.
unfoldable pub to_int : {N : Type 0} → (Text → Option N) → Option Text → N → N
to_int number none fallback = fallback
to_int number (some []) fallback = fallback
to_int number (some (c ∷ cs)) fallback = or_else (number (c ∷ cs)) fallback

-- The entries between commas, trimmed, but the empty ones.
unfoldable pub to_list : Option Text → List Text
to_list v = select (λ t. not (is_empty t)) (map trim (split_on 44 (or_else v [])))

module _ {N : Type 0} (number : Text → Option N) (of_nat : ℕ → N) where
  unfoldable pub configuration : Variables → AppConfig N
  configuration v = record {
    node_env = or_else v.node_env (codes "development");
    port = to_int number v.port (of_nat 3000);
    database_url = or_else v.database_url [];
    redis_url = or_else v.redis_url (codes "redis://localhost:6379");
    jwt = record {
      access_secret = or_else v.jwt_access_secret (codes "change-me-access");
      refresh_secret = or_else v.jwt_refresh_secret (codes "change-me-refresh");
      access_ttl = to_int number v.jwt_access_ttl (of_nat 1800);
      refresh_ttl = to_int number v.jwt_refresh_ttl (of_nat 2592000);
    };
    kakao = record {
      rest_api_key = or_else v.kakao_rest_api_key [];
      client_secret = or_else v.kakao_client_secret [];
      token_url = or_else v.kakao_token_url (codes "https://kauth.kakao.com/oauth/token");
      user_info_url = or_else v.kakao_userinfo_url (codes "https://kapi.kakao.com/v2/user/me");
    };
    s3 = record {
      endpoint = or_else v.s3_endpoint (codes "http://localhost:9000");
      public_endpoint =
          or_else v.s3_public_endpoint (or_else v.s3_endpoint (codes "http://localhost:9000"));
      bucket = or_else v.s3_bucket (codes "intaektok-media");
      access_key = or_else v.s3_access_key (codes "minioadmin");
      secret_key = or_else v.s3_secret_key (codes "minioadmin");
      region = or_else v.s3_region (codes "us-east-1");
      force_path_style = text_eq (or_else v.s3_force_path_style (codes "true")) (codes "true");
    };
    cdn_base_url = or_else v.cdn_base_url [];
    fcm = record {
      service_account_json = or_else v.fcm_service_account_json [];
      service_account = or_else v.fcm_service_account [];
    };
    policy = record {
      message_unsend_window_sec = to_int number v.message_unsend_window_sec (of_nat 300);
      media_max_bytes = to_int number v.media_max_bytes (of_nat 52428800);
      presence_ttl_sec = to_int number v.presence_ttl_sec (of_nat 60);
    };
    cors_origins = to_list v.cors_origins;
    throttle = record {
      ttl = to_int number v.throttle_ttl (of_nat 60);
      limit = to_int number v.throttle_limit (of_nat 120);
    };
    admin_user_ids = to_list v.admin_user_ids;
    bootstrap_kakao_ids = to_list v.whitelist_bootstrap_kakao_ids;
  }
