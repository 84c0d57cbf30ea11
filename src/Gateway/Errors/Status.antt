-- ===== src/Gateway/Errors/Status.antt =====
-- The HTTP status of an error (pkg/gateway/errors.go) before and after the gateway converts it.
use ai_inference_managed_by.Base.{
  ℕ, String, Bool, false, not, ◌||◌, ◌≡◌, ap, ◌∙◌, List, [], ◌∷◌, some, eqb, elem, if◌then◌else◌,
  arith,
}
use ai_inference_managed_by.Unit.Errors.{
  GoError, UnitError, code_of, as_unit_error, error_to_http_status,
}
use ai_inference_managed_by.Gateway.Errors.{
  other, to_error_info, legacy_status, error_code_to_http_status, get_http_status,
}

abbrev own_codes : List String
own_codes =
    "INVALID_REQUEST" ∷ "UNIT_NOT_FOUND" ∷ "RESOURCE_NOT_FOUND" ∷ "VALIDATION_FAILED"
    ∷ "EXECUTION_FAILED" ∷ "TIMEOUT" ∷ "UNAUTHORIZED" ∷ "RATE_LIMITED" ∷ "INTERNAL_ERROR" ∷ []

legacy_status-foreign : (code : String) → elem own_codes code ≡ false → legacy_status code ≡ 500
unfolding legacy_status
legacy_status-foreign code h = ground (arith, h)

-- With 500 as the fallback, falling back on 500 changes nothing.
default_or :
    (status fallback : ℕ) (b : Bool)
    → fallback ≡ 500
    → (if not (eqb status 500) || b then status else fallback) ≡ status
default_or status fallback b h = ground (arith, h)

error_code_to_http_status-foreign :
    (code : String)
    → elem own_codes code ≡ false
    → error_code_to_http_status code ≡ error_to_http_status code
unfolding error_code_to_http_status
error_code_to_http_status-foreign code h =
    default_or (error_to_http_status code) (legacy_status code) _ (legacy_status-foreign code h)

-- An error that holds a UnitError whose code is none of the gateway's own is answered with the same
-- HTTP status before and after it is converted: by its code in the ErrorInfo as by the error itself.
pub to_error_info-status :
    (e : GoError) (u : UnitError)
    → as_unit_error e ≡ some u
    → elem own_codes (code_of u) ≡ false
    → error_code_to_http_status (to_error_info (other e)).code ≡ get_http_status (some (other e))
unfolding to_error_info get_http_status
to_error_info-status e u h foreign =
    ap error_code_to_http_status {x = (to_error_info (other e)).code} {y = code_of u}
      (ground (arith, h))
    ∙ error_code_to_http_status-foreign (code_of u) foreign
    ∙ ground (arith, h)
