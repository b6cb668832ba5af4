-- ===== src/Config/Startup.antt =====
-- What `bootstrap` (src/main.ts) and the modules make of the configuration: src/main.ts,
-- src/global-prefix.ts and the throttler of src/app.module.ts.
use intaektok_be.Prelude.{Bool, not, List, [], ◌∷◌, Text, codes, text_eq}
use intaektok_be.Config.{AppConfig}

-- The `origin` of `enableCors`: a list, or whether all are let in.
pub data CorsOrigin : Type 0 where
  origins : List Text → CorsOrigin
  every : Bool → CorsOrigin

abbrev pub cors_of : List Text → Bool → CorsOrigin
cors_of [] is_prod = every (not is_prod)
cors_of (o ∷ os) is_prod = origins (o ∷ os)

unfoldable pub cors_origin : {N : Type 0} → AppConfig N → CorsOrigin
cors_origin c = cors_of c.cors_origins (text_eq c.node_env (codes "production"))
