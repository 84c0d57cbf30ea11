-- ===== src/Unit/Errors.antt =====
-- pkg/unit/errors.go: the errors of units, their HTTP status and the tests on them.
--
-- `details`, a map that nothing here reads, is left out. A Go error is a text, an error that wraps
-- another with %w, or a UnitError; a nil error is `none`.
pub mod Codes
pub mod Status
use Prim.Native.String.{◌++◌ as append}
use ai_inference_managed_by.Base.{
  String, Bool, ℕ, elem, ◌==◌, ◌||◌, Option, none, some, if◌then◌else◌, [], ◌∷◌, List, false,
}
use ai_inference_managed_by.Unit.Errors.Codes.{
  err_code_success, err_code_unknown, err_code_invalid_request, err_code_unauthorized,
  err_code_not_found, err_code_already_exists, err_code_timeout, err_code_rate_limited,
  err_code_internal_error, err_code_invalid_input, err_code_validation_failed,
  err_code_model_not_found, err_code_model_already_exists, err_code_engine_not_found,
  err_code_engine_already_running, err_code_inference_timeout, err_code_inference_rate_limited,
  err_code_resource_insufficient, err_code_resource_slot_not_found, err_code_device_not_found,
  err_code_service_not_found, err_code_app_not_found, err_code_pipeline_not_found,
  err_code_alert_rule_not_found, err_code_remote_not_enabled, err_code_remote_exec_failed,
  err_code_recipe_not_found, err_code_recipe_already_exists, err_code_recipe_invalid,
  err_code_recipe_apply_failed, err_code_skill_not_found, err_code_skill_already_exists,
  err_code_skill_invalid, err_code_builtin_skill_immutable, err_code_agent_not_enabled,
  err_code_agent_llm_error, err_code_conversation_not_found,
}

mutual
  pub data GoError : Type 0 where
    plain : String → GoError
    wrapped : String → GoError → GoError
    unit_error : UnitError → GoError

  pub data UnitError : Type 0 where
    error_of : (code domain message : String) → Cause → UnitError

  pub data Cause : Type 0 where
    no_cause : Cause
    caused_by : GoError → Cause

abbrev pub code_of : UnitError → String
code_of (error_of code domain message cause) = code

abbrev pub new_error : String → String → UnitError
new_error code message = error_of code "" message no_cause

abbrev pub new_domain_error : String → String → String → UnitError
new_domain_error domain code message = error_of code domain message no_cause

abbrev pub wrap_error : GoError → String → String → UnitError
wrap_error e code message = error_of code "" message (caused_by e)

abbrev pub wrap_domain_error : GoError → String → String → String → UnitError
wrap_domain_error e domain code message = error_of code domain message (caused_by e)

abbrev pub with_cause : UnitError → GoError → UnitError
with_cause (error_of code domain message cause) e = error_of code domain message (caused_by e)

-- The text of an error, by fmt's %v and %w.
unfoldable mutual
  pub error_text : GoError → String
  error_text (plain s) = s
  error_text (wrapped s e) = append s (append ": " (error_text e))
  error_text (unit_error u) = unit_text u

  pub unit_text : UnitError → String
  unit_text (error_of code domain message cause) =
      append "[" (append code (append "] " (append message (cause_text cause))))

  pub cause_text : Cause → String
  cause_text no_cause = ""
  cause_text (caused_by e) = append ": " (error_text e)

-- AsUnitError: the first UnitError of the chain, which errors.As finds.
unfoldable pub as_unit_error : GoError → Option UnitError
as_unit_error (plain s) = none
as_unit_error (wrapped s e) = as_unit_error e
as_unit_error (unit_error u) = some u

-- errors.Is with a UnitError: the method Is of each UnitError of the chain compares the codes.
unfoldable mutual
  pub is_error : GoError → UnitError → Bool
  is_error (plain s) target = false
  is_error (wrapped s e) target = is_error e target
  is_error (unit_error u) target = is_unit u target

  pub is_unit : UnitError → UnitError → Bool
  is_unit (error_of code domain message cause) target =
      let rest = is_cause cause target in code == code_of target || rest

  pub is_cause : Cause → UnitError → Bool
  is_cause no_cause target = false
  is_cause (caused_by e) target = is_error e target

-- ErrorToHTTPStatus; a case of the switch is a list of codes.
unfoldable pub error_to_http_status : String → ℕ
error_to_http_status code =
    if err_code_success == code
    then 200
    else if elem
        (err_code_invalid_request ∷ err_code_invalid_input ∷ err_code_validation_failed ∷ []) code
    then 400
    else if err_code_unauthorized == code
    then 401
    else if err_code_not_found == code
    then 404
    else if err_code_already_exists == code
    then 409
    else if err_code_timeout == code
    then 408
    else if err_code_rate_limited == code
    then 429
    else if elem
        (err_code_model_not_found ∷ err_code_engine_not_found ∷ err_code_service_not_found
          ∷ err_code_app_not_found ∷ err_code_pipeline_not_found ∷ err_code_alert_rule_not_found
          ∷ err_code_device_not_found ∷ err_code_resource_slot_not_found ∷ err_code_recipe_not_found
          ∷ err_code_skill_not_found ∷ err_code_conversation_not_found ∷ [])
        code
    then 404
    else if elem
        (err_code_model_already_exists ∷ err_code_engine_already_running
          ∷ err_code_recipe_already_exists ∷ err_code_skill_already_exists ∷ [])
        code
    then 409
    else if elem
        (err_code_recipe_invalid ∷ err_code_skill_invalid ∷ err_code_builtin_skill_immutable ∷ [])
        code
    then 400
    else if elem (err_code_agent_not_enabled ∷ err_code_agent_llm_error ∷ []) code
    then 503
    else if err_code_recipe_apply_failed == code
    then 500
    else if elem (err_code_remote_not_enabled ∷ err_code_remote_exec_failed ∷ []) code
    then 503
    else 500

abbrev pub err_not_found : UnitError
err_not_found = new_error err_code_not_found "resource not found"

abbrev pub err_timeout : UnitError
err_timeout = new_error err_code_timeout "operation timeout"

abbrev pub err_rate_limited : UnitError
err_rate_limited = new_error err_code_rate_limited "rate limited"

unfoldable pub is_not_found : GoError → Bool
unfolding as_unit_error is_error
is_not_found e = elim (as_unit_error e) [
  | some u ↦
      elem
        (err_code_not_found ∷ err_code_model_not_found ∷ err_code_engine_not_found
          ∷ err_code_service_not_found ∷ err_code_app_not_found ∷ err_code_pipeline_not_found
          ∷ err_code_alert_rule_not_found ∷ err_code_device_not_found
          ∷ err_code_resource_slot_not_found ∷ err_code_recipe_not_found ∷ err_code_skill_not_found
          ∷ err_code_conversation_not_found ∷ [])
        (code_of u)
  | none ↦ is_error e err_not_found
]

unfoldable pub is_already_exists : GoError → Bool
unfolding as_unit_error
is_already_exists e = elim (as_unit_error e) [
  | some u ↦
      elem
        (err_code_already_exists ∷ err_code_model_already_exists ∷ err_code_engine_already_running
          ∷ err_code_recipe_already_exists ∷ err_code_skill_already_exists ∷ [])
        (code_of u)
  | none ↦ false
]

unfoldable pub is_timeout : GoError → Bool
unfolding as_unit_error is_error
is_timeout e = elim (as_unit_error e) [
  | some u ↦ code_of u == err_code_timeout || code_of u == err_code_inference_timeout
  | none ↦ is_error e err_timeout
]

unfoldable pub is_rate_limited : GoError → Bool
unfolding as_unit_error is_error
is_rate_limited e = elim (as_unit_error e) [
  | some u ↦ code_of u == err_code_rate_limited || code_of u == err_code_inference_rate_limited
  | none ↦ is_error e err_rate_limited
]

unfoldable pub is_immutable : GoError → Bool
unfolding as_unit_error
is_immutable e = elim (as_unit_error e) [
  | some u ↦ code_of u == err_code_builtin_skill_immutable
  | none ↦ false
]
