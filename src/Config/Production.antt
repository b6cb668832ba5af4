-- ===== src/Config/Production.antt =====
-- On the variables that src/config/env.validation.ts accepts, and what src/config/configuration.ts makes
-- of them.
use intaektok_be.Prelude.{
  ℕ, Bool, true, false, not, ◌&&◌, Option, none, some, List, [], ◌∷◌, Text, codes, text_eq,
  is_empty, if◌then◌else◌, ◌≡◌, refl, arith, sym, ◌∙◌,
}
use intaektok_be.Config.{Variables, or_else, to_list, configuration}
use intaektok_be.Config.Startup.{CorsOrigin, origins, every, cors_of, cors_origin}
use intaektok_be.Config.Validation.{
  Validated, accepted, is_missing, is_text, is_production, missing, validate_env,
}

abbrev pub is_accepted : Validated → Bool
is_accepted (accepted _) = true
is_accepted _ = false

abbrev pub has_secret : Option Text → Text → Bool
has_secret value default_value = not (is_missing value) && not (is_text value default_value)

-- The server starts exactly if it has a database and Redis and, in production, a bucket, the key of
-- Kakao, and two secrets that are not the defaults.
validate_env_iff :
    (v : Variables)
    → is_accepted (validate_env v) ≡ (
        not (is_missing v.database_url)
        && not (is_missing v.redis_url)
        && (if is_production v
            then (has_secret v.jwt_access_secret (codes "change-me-access")
                && has_secret v.jwt_refresh_secret (codes "change-me-refresh")
                && not (is_missing v.s3_bucket)
                && not (is_missing v.kakao_rest_api_key))
            else true))
unfolding validate_env missing
validate_env_iff v = ground arith

-- A secret of its own: neither empty nor the default.
abbrev pub IsSecret : Text → Text → Type 0
IsSecret t default_value = (is_empty t ≡ false) × (text_eq t default_value ≡ false)

has_secret-IsSecret :
    (value : Option Text) (default_value fallback : Text)
    → has_secret value default_value ≡ true
    → IsSecret (or_else value fallback) default_value
has_secret-IsSecret none d f h = absurd (ground (arith, h))
has_secret-IsSecret (some t) d f h = (ground (arith, h), ground (arith, h))

is_missing-else :
    (value : Option Text) (fallback : Text)
    → is_missing value ≡ false
    → is_empty (or_else value fallback) ≡ false
is_missing-else none f h = absurd (ground (arith, h))
is_missing-else (some t) f h = h

abbrev pub allows_all : CorsOrigin → Bool
allows_all (every b) = b
allows_all (origins _) = false

cors-closed : (os : List Text) → allows_all (cors_of os true) ≡ false
cors-closed [] = refl
cors-closed (o ∷ os) = refl

-- A server that starts in production signs its tokens with two secrets that are neither empty nor the
-- defaults of the source, and its database, Redis, bucket and key of Kakao are not empty. It
-- does not let in every origin.
pub production_secrets :
    {N : Type 0} (number : Text → Option N) (of_nat : ℕ → N) (v : Variables)
    → is_production v ≡ true
    → is_accepted (validate_env v) ≡ true
    → let c = configuration number of_nat v in
      IsSecret c.jwt.access_secret (codes "change-me-access")
      × IsSecret c.jwt.refresh_secret (codes "change-me-refresh")
      × (is_empty c.s3.bucket ≡ false)
      × (is_empty c.kakao.rest_api_key ≡ false)
      × (is_empty c.database_url ≡ false)
      × (is_empty c.redis_url ≡ false)
      × (allows_all (cors_origin c) ≡ false)
unfolding configuration cors_origin
production_secrets number of_nat v p h =
    let e = sym (validate_env_iff v) ∙ h in
    (
      has_secret-IsSecret v.jwt_access_secret (codes "change-me-access") _ (ground (arith, e, p)),
      has_secret-IsSecret v.jwt_refresh_secret (codes "change-me-refresh") _ (ground (arith, e, p)),
      is_missing-else v.s3_bucket _ (ground (arith, e, p)),
      is_missing-else v.kakao_rest_api_key _ (ground (arith, e, p)),
      is_missing-else v.database_url _ (ground (arith, e, p)),
      is_missing-else v.redis_url _ (ground (arith, e, p)),
      rw p (cors-closed (to_list v.cors_origins)),
    )
