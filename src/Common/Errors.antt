-- ===== src/Common/Errors.antt =====
-- src/common/errors.ts: the application errors, and what a service call can throw. The optional
-- `details` of an error, which no code of the server reads, are left out.
use intaektok_be.Prelude.{ℕ, String}
use intaektok_be.Common.ErrorCode.{ErrorCode}

pub record AppException : Type 0 where
  pub status : ℕ
  pub code : ErrorCode
  pub message : String

pub data Error : Type 0 where
  -- an `AppException`
  app : AppException → Error
  -- a `PrismaClientKnownRequestError` with its code, 2002 for a unique constraint
  known_request : ℕ → Error
  -- any other thrown value
  thrown : Error

unfoldable pub unauthorized : String → Error
unauthorized m = app (record { status = 401; code = ErrorCode.unauthorized; message = m })

unfoldable pub forbidden : String → Error
forbidden m = app (record { status = 403; code = ErrorCode.forbidden; message = m })

unfoldable pub not_allowed : String → Error
not_allowed m = app (record { status = 403; code = ErrorCode.not_allowed; message = m })

unfoldable pub not_found : String → Error
not_found m = app (record { status = 404; code = ErrorCode.not_found; message = m })

unfoldable pub validation : String → Error
validation m = app (record { status = 400; code = ErrorCode.validation_error; message = m })

unfoldable pub conflict : String → Error
conflict m = app (record { status = 409; code = ErrorCode.conflict; message = m })

unfoldable pub rate_limited : String → Error
rate_limited m = app (record { status = 429; code = ErrorCode.rate_limited; message = m })

unfoldable pub internal : String → Error
internal m = app (record { status = 500; code = ErrorCode.internal; message = m })
