-- ===== src/Gateway/Auth/Examples.antt =====
-- Requests on which the theorems about pkg/gateway/middleware/auth.go are applied.
use ai_inference_managed_by.Base.{false, ◌≡◌, refl, ◌↔◌, [], ◌∷◌}
use ai_inference_managed_by.Gateway.Auth.{
  AuthConfig, HttpRequest, forced, served, auth, is_write_method, resolve_auth_level,
  extract_bearer_token,
}
use ai_inference_managed_by.Gateway.Auth.Guard.{Admits, auth_iff}

abbrev config : AuthConfig
config = record {
  enabled = false;
  api_keys = "key" ∷ [];
  unit_auth_levels = ("remote.exec", forced) ∷ [];
}

abbrev named : HttpRequest
named = record { method = "POST"; x_unit = "remote.exec"; authorization = "Bearer key" }

auth_iff_example :
    (auth config named ≡ served)
    ↔ Admits config
        (is_write_method "POST")
        (resolve_auth_level "remote.exec" config.unit_auth_levels)
        (extract_bearer_token named)
auth_iff_example = auth_iff config named refl
