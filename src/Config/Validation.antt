-- ===== src/Config/Validation.antt =====
-- src/config/env.validation.ts
use intaektok_be.Prelude.{
  Bool, true, false, Option, none, some, List, [], ◌∷◌, ◌++◌, Text, String, codes, text_eq,
  is_empty, if◌then◌else◌,
}
use intaektok_be.Config.{Variables, or_else}

-- `!config[key]`
abbrev pub is_missing : Option Text → Bool
is_missing none = true
is_missing (some t) = is_empty t

abbrev pub is_text : Option Text → Text → Bool
is_text none t = false
is_text (some s) t = text_eq s t

abbrev pub is_production : Variables → Bool
is_production v = text_eq (or_else v.node_env (codes "development")) (codes "production")

-- The names of a list that have no value.
abbrev pub missing_of : List (String × Option Text) → List String
missing_of [] = []
missing_of ((key, value) ∷ more) =
    let rest = missing_of more in if is_missing value then key ∷ rest else rest

abbrev pub named_if : Bool → String → List String
named_if true message = message ∷ []
named_if false message = []

abbrev pub missing_in_production : Variables → List String
missing_in_production v =
    missing_of (
      ("JWT_ACCESS_SECRET", v.jwt_access_secret)
      ∷ ("JWT_REFRESH_SECRET", v.jwt_refresh_secret)
      ∷ ("S3_BUCKET", v.s3_bucket)
      ∷ ("KAKAO_REST_API_KEY", v.kakao_rest_api_key)
      ∷ [])
    ++ named_if (is_text v.jwt_access_secret (codes "change-me-access"))
        "JWT_ACCESS_SECRET(must not be default in production)"
    ++ named_if (is_text v.jwt_refresh_secret (codes "change-me-refresh"))
        "JWT_REFRESH_SECRET(must not be default in production)"

unfoldable pub missing : Variables → List String
missing v =
    missing_of (("DATABASE_URL", v.database_url) ∷ ("REDIS_URL", v.redis_url) ∷ [])
    ++ (if is_production v then missing_in_production v else [])

-- The variables, or the names that the error lists.
pub data Validated : Type 0 where
  accepted : Variables → Validated
  rejected : List String → Validated

abbrev pub verdict : Variables → List String → Validated
verdict v [] = accepted v
verdict v (m ∷ ms) = rejected (m ∷ ms)

unfoldable pub validate_env : Variables → Validated
validate_env v = verdict v (missing v)
