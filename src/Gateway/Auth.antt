-- ===== src/Gateway/Auth.antt =====
-- The authentication of pkg/gateway/middleware/auth.go. The handler that the middleware wraps is called
-- exactly when it serves a request. Loggers and the text of a refusal's body are left out.
pub mod Guard
pub mod Examples
use ai_inference_managed_by.Base.{
  String, Bool, true, false, ◌&&◌, not, List, [], ◌∷◌, Option, none, some, ◌==◌, elem,
  if◌then◌else◌,
}
use ai_inference_managed_by.Base.Map.{Map, lookup}
use ai_inference_managed_by.Base.Text.{cut, equal_fold, trim_space}

pub data AuthLevel : Type 0 where
  optional recommended forced : AuthLevel

-- `unit_auth_levels` is a nil map where it is empty: both find nothing.
pub record AuthConfig : Type 0 where
  pub enabled : Bool
  pub api_keys : List String
  pub unit_auth_levels : Map AuthLevel

-- The parts of a request that are read; a header that is not there is the empty text.
pub record HttpRequest : Type 0 where
  pub method : String
  pub x_unit : String
  pub authorization : String

pub data Answer : Type 0 where
  served : Answer
  unauthorized : (message : String) → Answer

-- The set of keys, as a list.
abbrev pub build_key_set : List String → List String
build_key_set [] = []
build_key_set (k ∷ keys) = let rest = build_key_set keys in if not (k == "") then k ∷ rest else rest

unfoldable pub resolve_auth_level : String → Map AuthLevel → AuthLevel
resolve_auth_level unit levels = elim (lookup unit levels) [
  | some level ↦ level
  | none ↦ recommended
]

abbrev pub is_write_method : String → Bool
is_write_method method = elem ("POST" ∷ "PUT" ∷ "DELETE" ∷ "PATCH" ∷ []) method

unfoldable pub extract_bearer_token : HttpRequest → String
extract_bearer_token r = if r.authorization == "" then "" else elim (cut " " r.authorization) [
  | none ↦ ""
  | some (scheme, token) ↦ if equal_fold scheme "Bearer" then trim_space token else ""
]

-- Without a key no token is valid.
abbrev pub is_valid_token : String → List String → Bool
is_valid_token token valid_keys = elem valid_keys token

-- level < AuthLevelRecommended on a write method
abbrev pub floor : Bool → AuthLevel → AuthLevel
floor write optional = if write then recommended else optional
floor write recommended = recommended
floor write forced = forced

abbrev pub check_token : List String → String → Answer
check_token valid_keys token =
    if token == ""
    then unauthorized "authentication required"
    else if not (is_valid_token token valid_keys)
    then unauthorized "invalid API key"
    else served

-- The switch on the level.
unfoldable pub at_level : AuthConfig → AuthLevel → String → Answer
at_level cfg optional token =
    if token == ""
    then served
    else if not (is_valid_token token (build_key_set cfg.api_keys))
    then unauthorized "invalid API key"
    else served
at_level cfg forced token = check_token (build_key_set cfg.api_keys) token
at_level cfg recommended token =
    if not cfg.enabled then served else check_token (build_key_set cfg.api_keys) token

unfoldable pub auth : AuthConfig → HttpRequest → Answer
unfolding resolve_auth_level extract_bearer_token at_level
auth cfg r =
    if r.method == "OPTIONS"
    then served
    else at_level cfg
        (floor (is_write_method r.method) (resolve_auth_level r.x_unit cfg.unit_auth_levels))
        (extract_bearer_token r)
