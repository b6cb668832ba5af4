-- ===== src/Realtime/Codes.antt =====
-- On `errAck` (src/realtime/realtime.gateway.ts) and the filter of HTTP (src/common/filters).
use intaektok_be.Prelude.{Option, none, some, ◌≡◌, refl}
use intaektok_be.Common.ErrorCode.{ErrorCode}
use intaektok_be.Common.Errors.{Error, app, known_request, thrown}
use intaektok_be.Common.Filter.{catch, service}
use intaektok_be.Realtime.Socket.{Ack, sent, done, joined_room, failed, err_ack}

abbrev pub code_of_ack : Ack → Option ErrorCode
code_of_ack (failed c m) = some c
code_of_ack (sent i n t) = none
code_of_ack done = none
code_of_ack (joined_room r) = none

-- The acknowledgement of a handler that failed has the code of the response that the filter of HTTP
-- makes of the same error.
pub err_ack_code : (e : Error) → code_of_ack (err_ack e) ≡ some (catch (service e)).code
unfolding err_ack catch
err_ack_code (app e) = refl
err_ack_code (known_request n) = refl
err_ack_code thrown = refl
