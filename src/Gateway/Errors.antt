-- ===== src/Gateway/Errors.antt =====
-- pkg/gateway/errors.go: the gateway's errors, what it makes of other errors, and their HTTP status. A nil
-- error is `none`. The details of a UnitError, a map, and JSON are left out.
pub mod Status
use Prim.Native.String.{◌++◌ as append}
use ai_inference_managed_by.Base.{
  ℕ, String, Bool, true, false, not, ◌||◌, List, [], ◌∷◌, Option, none, some, ◌==◌, eqb, elem,
  if◌then◌else◌,
}
use ai_inference_managed_by.Unit.Errors.{
  GoError, UnitError, error_of, code_of, wrapped, unit_error, new_error, error_text, as_unit_error,
  is_error, error_to_http_status,
}
use ai_inference_managed_by.Unit.Errors as UnitErrors
use ai_inference_managed_by.Unit.Errors.Codes.{
  err_code_internal_error, err_code_not_found, err_code_model_not_found, err_code_timeout,
  err_code_rate_limited,
}
use ai_inference_managed_by.Gateway.{ErrorInfo, new_error_info, new_error_info_with_details}

abbrev pub invalid_request : String
invalid_request = "INVALID_REQUEST"

abbrev pub unit_not_found : String
unit_not_found = "UNIT_NOT_FOUND"

abbrev pub resource_not_found : String
resource_not_found = "RESOURCE_NOT_FOUND"

abbrev pub validation_failed : String
validation_failed = "VALIDATION_FAILED"

abbrev pub execution_failed : String
execution_failed = "EXECUTION_FAILED"

abbrev pub timeout : String
timeout = "TIMEOUT"

abbrev pub unauthorized : String
unauthorized = "UNAUTHORIZED"

abbrev pub rate_limited : String
rate_limited = "RATE_LIMITED"

abbrev pub internal_error : String
internal_error = "INTERNAL_ERROR"

-- An error as the gateway meets it: an ErrorInfo of its own, or any other.
pub data GatewayError : Type 0 where
  info : ErrorInfo → GatewayError
  other : GoError → GatewayError

abbrev pub message_of : UnitError → String
message_of (error_of code domain message cause) = message

unfoldable pub to_error_info : GatewayError → ErrorInfo
unfolding as_unit_error error_text
to_error_info (info e) = e
to_error_info (other e) = elim (as_unit_error e) [
  | some u ↦ new_error_info (code_of u) (message_of u)
  | none ↦ new_error_info internal_error (error_text e)
]

-- ErrorInfo.Error
abbrev pub info_text : ErrorInfo → String
info_text e = elim e.details [
  | some d ↦ append "[" (append e.code (append "] " (append e.message (append ": " d))))
  | none ↦ append "[" (append e.code (append "] " e.message))
]

-- ErrorInfo.Is
abbrev pub info_is : ErrorInfo → GatewayError → Bool
info_is e (info t) = e.code == t.code
info_is e (other t) = false

-- The switch of ErrorCodeToHTTPStatus.
unfoldable pub legacy_status : String → ℕ
legacy_status code =
    if invalid_request == code
    then 400
    else if elem (unit_not_found ∷ resource_not_found ∷ []) code
    then 404
    else if validation_failed == code
    then 400
    else if execution_failed == code
    then 500
    else if timeout == code
    then 408
    else if unauthorized == code
    then 401
    else if rate_limited == code
    then 429
    else 500

unfoldable pub error_code_to_http_status : String → ℕ
unfolding error_to_http_status legacy_status
error_code_to_http_status code =
    let status = error_to_http_status code in
    if not (eqb status 500) || code == err_code_internal_error then status else legacy_status code

unfoldable pub get_http_status : Option GatewayError → ℕ
unfolding as_unit_error error_to_http_status error_code_to_http_status
get_http_status none = 200
get_http_status (some (info e)) = error_code_to_http_status e.code
get_http_status (some (other e)) = elim (as_unit_error e) [
  | some u ↦ error_to_http_status (code_of u)
  | none ↦ 500
]

unfoldable pub is_not_found : Option GatewayError → Bool
unfolding UnitErrors.is_not_found
is_not_found none = false
is_not_found (some (info e)) =
    elem (unit_not_found ∷ resource_not_found ∷ err_code_not_found ∷ err_code_model_not_found ∷ [])
      e.code
is_not_found (some (other e)) = UnitErrors.is_not_found e || is_error e UnitErrors.err_not_found

unfoldable pub is_already_exists : Option GatewayError → Bool
unfolding UnitErrors.is_already_exists
is_already_exists none = false
is_already_exists (some (info e)) = false
is_already_exists (some (other e)) = UnitErrors.is_already_exists e

unfoldable pub is_timeout : Option GatewayError → Bool
unfolding UnitErrors.is_timeout
is_timeout none = false
is_timeout (some (info e)) = elem (timeout ∷ err_code_timeout ∷ []) e.code
is_timeout (some (other e)) = UnitErrors.is_timeout e || is_error e UnitErrors.err_timeout

unfoldable pub is_rate_limited : Option GatewayError → Bool
unfolding UnitErrors.is_rate_limited
is_rate_limited none = false
is_rate_limited (some (info e)) = elem (rate_limited ∷ err_code_rate_limited ∷ []) e.code
is_rate_limited (some (other e)) =
    UnitErrors.is_rate_limited e || is_error e UnitErrors.err_rate_limited

-- NewUnitError
abbrev pub new_unit_error : String → String → ErrorInfo
new_unit_error code message = to_error_info (other (unit_error (new_error code message)))

-- WrapError, of any error that is no ErrorInfo
abbrev pub wrap_error : Option GoError → String → Option ErrorInfo
wrap_error none message = none
wrap_error (some e) message = some (to_error_info (other (wrapped message e)))

abbrev pub new_invalid_request_error : String → ErrorInfo
new_invalid_request_error message = new_error_info invalid_request message

abbrev pub new_not_found_error : String → ErrorInfo
new_not_found_error resource = new_error_info resource_not_found (append resource " not found")

abbrev pub new_validation_error : String → String → ErrorInfo
new_validation_error message details = new_error_info_with_details validation_failed message details

abbrev pub new_timeout_error : String → ErrorInfo
new_timeout_error message = new_error_info timeout message

abbrev pub new_unauthorized_error : String → ErrorInfo
new_unauthorized_error message = new_error_info unauthorized message

abbrev pub new_rate_limited_error : String → ErrorInfo
new_rate_limited_error message = new_error_info rate_limited message

abbrev pub new_internal_error : String → ErrorInfo
new_internal_error message = new_error_info internal_error message
