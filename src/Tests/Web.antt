-- ===== src/Tests/Web.antt =====
-- The theorems on the REST API, the configuration, and the services behind Firebase and the store.
use intaektok_be.Prelude.{
  ℕ, ◌+◌, ◌*◌, ◌≤◌, ◌↔◌, ◌≢◌, Bool, true, false, not, ◌&&◌, Option, none, some, List, [], ◌∷◌, ◌++◌,
  map, Ident, Text, codes, contains, truthy, is_some, is_empty, if◌then◌else◌, ◌==◌, ◌≡◌, refl, All,
  join_with, arith,
}
use intaektok_be.Prisma.{MessageType, WhitelistStatus}
use intaektok_be.World.{World}
use intaektok_be.Auth.Jwt.{TokenPayload, TokenKind}
use intaektok_be.Auth.Kakao.{Fetch}
use intaektok_be.Common.Events.{MessageCreatedEvent}
use intaektok_be.Messages.Persist.{serialize}
use intaektok_be.Admin.{UpdateWhitelistDto}
use intaektok_be.Admin.Block.{Refused}
use intaektok_be.Api.{Server, Access, query_of}
use intaektok_be.Api.Routes.{
  Request, messages_send, whitelist_update, auth_refresh, access_of, handle, serve,
}
use intaektok_be.Api.Messages.{SendMessageDto}
use intaektok_be.Api.Passing.{may_call, caller_of}
use intaektok_be.Api.Gate.{Denied, caller_at, serve_gate}
use intaektok_be.Api.Blocked.{blocked_is_shut_out}
use intaektok_be.Config.{Variables, S3Config, FcmConfig, to_list, configuration}
use intaektok_be.Config.Startup.{cors_origin}
use intaektok_be.Config.Validation.{validate_env, is_production, is_missing}
use intaektok_be.Config.Production.{IsSecret, allows_all, production_secrets}
use intaektok_be.Push.{fcm_tokens, sent_to}
use intaektok_be.Push.Fcm.{
  Firebase, contents, SendResponse, delivered, failed, is_gone, push_message, on_module_init,
}
use intaektok_be.Push.Fcm.Start.{is_broken, on_module_init_throws}
use intaektok_be.Push.Fcm.Purge.{push_message_purges}
use intaektok_be.Presence.Heartbeat.{Clock, Alone, Reach, is_live, presence_outlives}
use intaektok_be.Tests.{env, jwt, world, ann, entry, text}

-- Cho is the admin.
abbrev pub server : Server
server = record {
  env = env;
  jwt = jwt;
  kakao = record {
    rest_api_key = 1 ∷ [];
    token = λ code uri. Fetch.rejected;
    user_me = λ t. Fetch.rejected;
  };
  admins = 3 ∷ [];
}

abbrev pub greeting_dto : SendMessageDto
greeting_dto = record {
  client_message_id = some 80;
  kind = MessageType.text;
  content = some (104 ∷ []);
  media_id = none;
  reply_to_id = none;
}

abbrev pub greeting : Request
greeting = messages_send 10 greeting_dto

serve_gate_example :
    (may_call server (some (1 ∷ [])) greeting world ≡ true
      → serve server (some (1 ∷ [])) greeting world
        ≡ handle server (caller_at server (some (1 ∷ [])) greeting world) greeting world)
    × (may_call server (some (1 ∷ [])) greeting world ≡ false
        → Denied
            (caller_of jwt (some (1 ∷ [])) world)
            (serve server (some (1 ∷ [])) greeting world)
            world)
serve_gate_example = serve_gate server (some (1 ∷ [])) greeting world

-- Ann may write in her group; Bob, who has no profile, may not.
ann_may : may_call server (some (1 ∷ [])) greeting world ≡ true
unfolding access_of intaektok_be.Auth.Guards.is_admin_identity intaektok_be.Api.Routes.room_of
ann_may = refl

bob_may_not : may_call server (some (2 ∷ [])) greeting world ≡ false
unfolding access_of intaektok_be.Auth.Guards.is_admin_identity intaektok_be.Api.Routes.room_of
bob_may_not = refl

abbrev pub block : UpdateWhitelistDto
block = record { status = some (some WhitelistStatus.blocked); note = none }

abbrev after_block : World
after_block = (serve server (some (3 ∷ [])) (whitelist_update 51 block) world).1

abbrev ticket : TokenPayload
ticket = record { sub = 1; kind = TokenKind.access; jti = 0 }

blocked_is_shut_out_example :
    (jwt.verify_access (1 ∷ []) ≡ some ticket
      → (req : Request) → access_of req ≢ Access.public
      → Denied none (serve server (some (1 ∷ [])) req after_block) after_block)
    × (jwt.verify_refresh (1 ∷ []) ≡ some ticket
        → Refused (serve server none (auth_refresh (1 ∷ [])) after_block))
unfolding access_of intaektok_be.Auth.Guards.is_admin_identity
blocked_is_shut_out_example =
    blocked_is_shut_out server (some (3 ∷ [])) none 51 101 block
      (entry 51 101 WhitelistStatus.active) ann world refl refl refl refl refl refl refl (1 ∷ [])
      ticket refl

-- Two ids, with white space and an empty entry.
admin_ids : to_list (some (codes " 11,, 12 ")) ≡ codes "11" ∷ codes "12" ∷ []
unfolding to_list codes intaektok_be.Prelude.trim
admin_ids = refl

abbrev unset : Variables
unset = record {
  node_env = none;
  port = none;
  database_url = none;
  redis_url = none;
  jwt_access_secret = none;
  jwt_refresh_secret = none;
  jwt_access_ttl = none;
  jwt_refresh_ttl = none;
  kakao_rest_api_key = none;
  kakao_client_secret = none;
  kakao_token_url = none;
  kakao_userinfo_url = none;
  s3_endpoint = none;
  s3_public_endpoint = none;
  s3_bucket = none;
  s3_access_key = none;
  s3_secret_key = none;
  s3_region = none;
  s3_force_path_style = none;
  cdn_base_url = none;
  fcm_service_account_json = none;
  fcm_service_account = none;
  message_unsend_window_sec = none;
  media_max_bytes = none;
  presence_ttl_sec = none;
  cors_origins = none;
  throttle_ttl = none;
  throttle_limit = none;
  admin_user_ids = none;
  whitelist_bootstrap_kakao_ids = none;
}

abbrev deployed : Variables
deployed = record unset {
  node_env = some (codes "production");
  database_url = some (codes "db");
  redis_url = some (codes "redis");
  jwt_access_secret = some (codes "a");
  jwt_refresh_secret = some (codes "b");
  s3_bucket = some (codes "c");
  kakao_rest_api_key = some (codes "d");
}

abbrev number : Text → Option ℕ
number t = none

production_secrets_example :
    let c = configuration number (λ n. n) deployed in
    IsSecret c.jwt.access_secret (codes "change-me-access")
    × IsSecret c.jwt.refresh_secret (codes "change-me-refresh")
    × (is_empty c.s3.bucket ≡ false)
    × (is_empty c.kakao.rest_api_key ≡ false)
    × (is_empty c.database_url ≡ false)
    × (is_empty c.redis_url ≡ false)
    × (allows_all (cors_origin c) ≡ false)
unfolding validate_env codes intaektok_be.Config.Validation.missing
production_secrets_example = production_secrets number (λ n. n) deployed refl refl

-- Firebase, for which every token but that of Ann's phone is registered.
abbrev verdict : Ident → SendResponse
verdict i =
    if i == 400 then failed (some (codes "messaging/invalid-registration-token")) else delivered

abbrev firebase : Firebase ℕ
firebase = record {
  from_base64 = λ t. t;
  parse = λ t. none;
  file = λ p. contents p;
  initialize = λ a. true;
  respond = λ ts n. map verdict ts;
}

abbrev broken : FcmConfig
broken = record { service_account_json = codes "a"; service_account = [] }

on_module_init_throws_example : not (is_some (on_module_init firebase broken)) ≡ (
    is_empty broken.service_account
    && not (is_empty broken.service_account_json)
    && is_broken firebase (firebase.file broken.service_account_json))
on_module_init_throws_example = on_module_init_throws firebase broken

abbrev news : MessageCreatedEvent
news = record {
  message = serialize (text 21 2 2 72);
  member_user_ids = 1 ∷ 2 ∷ 3 ∷ [];
  preview = [];
  room_title = [];
}

push_message_purges_example :
    ((f : Ident)
      → contains (fcm_tokens (push_message firebase true news world).push_tokens) f ≡ (
          contains (fcm_tokens world.push_tokens) f
          && not (contains (sent_to news world) f && is_gone firebase (verdict f))))
    × (push_message firebase false news world ≡ world)
push_message_purges_example = push_message_purges firebase news world verdict (λ ts. refl)

presence_outlives_example :
    ((2 ≤ 60) ↔ ((c : Clock) → Reach 60 1000 c → c.runs ≡ true → is_live c ≡ true))
    × ((c : Clock) → Alone 1 1000 c → 1000 + 1000 ≤ c.now → is_live c ≡ false)
    × ((c : Clock) → Reach 60 1000 c → is_live (record c { now = c.now + 60 * 1000 }) ≡ false)
presence_outlives_example = presence_outlives 60 1000
