-- ===== src/Common/ErrorCode.antt =====
-- The error codes of src/common/errors.ts.
pub data ErrorCode : Type 0 where
  unauthorized forbidden not_allowed not_found : ErrorCode
  validation_error rate_limited conflict internal : ErrorCode
