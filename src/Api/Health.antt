-- ===== src/Api/Health.antt =====
-- src/health/health.controller.ts
use intaektok_be.Prelude.{Bool, false, not, ◌||◌, Option, none, some, Text, codes, text_eq}
use intaektok_be.Common.Errors.{internal}
use intaektok_be.World.{Call, pure, ◌>>◌, throw_if}

pub record Checks : Type 0 where
  pub db : Bool
  pub redis : Bool

abbrev is_pong : Option Text → Bool
is_pong none = false
is_pong (some t) = text_eq t (codes "PONG")

-- `ready`, given whether the query of the database succeeds and what Redis replies to a ping; `none`
-- where it throws.
unfoldable pub ready : Bool → Option Text → Call Checks
ready db pong = do
  throw_if (not db || not (is_pong pong)) (internal "서비스가 아직 준비되지 않았습니다.")
  pure (record { db = db; redis = is_pong pong })
