-- ===== src/Common/Filter.antt =====
-- src/common/filters: the response to an exception that a handler of HTTP throws. The `details` of
-- the body and the log are left out.
use intaektok_be.Prelude.{ℕ, String, ◌==◌, if◌then◌else◌}
use intaektok_be.Common.ErrorCode.{ErrorCode}
use intaektok_be.Common.Errors.{Error, app, known_request, thrown}

-- `STATUS_CODE_MAP[status] ?? 'INTERNAL'`
unfoldable pub code_of_status : ℕ → ErrorCode
code_of_status s =
    if s == 401
    then ErrorCode.unauthorized
    else if s == 403
    then ErrorCode.forbidden
    else if s == 404
    then ErrorCode.not_found
    else if s == 400
    then ErrorCode.validation_error
    else if s == 409
    then ErrorCode.conflict
    else if s == 429
    then ErrorCode.rate_limited
    else ErrorCode.internal

-- The `message` in the response of an exception of Nest: an array, a string, or neither.
pub data NestMessage : Type 0 where
  messages : NestMessage
  message : String → NestMessage
  no_message : NestMessage

-- What can reach the filter: an error of the services, or a built-in exception of Nest, with its
-- status, its own message and that of its response.
pub data Exception : Type 0 where
  service : Error → Exception
  nest : ℕ → String → NestMessage → Exception

pub record Response : Type 0 where
  pub status : ℕ
  pub code : ErrorCode
  pub message : String

abbrev message_of : String → NestMessage → String
message_of own messages = "입력값이 올바르지 않습니다."
message_of own (message m) = m
message_of own no_message = own

abbrev pub unhandled : Response
unhandled = record { status = 500; code = ErrorCode.internal; message = "서버 오류가 발생했습니다." }

unfoldable pub catch : Exception → Response
catch (service (app e)) = record { status = e.status; code = e.code; message = e.message }
catch (service (known_request _)) = unhandled
catch (service thrown) = unhandled
catch (nest status own m) = record {
  status = status;
  code = code_of_status status;
  message = message_of own m;
}
