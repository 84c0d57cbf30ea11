-- ===== src/Gateway/Auth/Guard.antt =====
-- Whom the middleware of pkg/gateway/middleware/auth.go lets through.
use ai_inference_managed_by.Base.{
  String, Bool, true, false, ◌≡◌, ◌≢◌, refl, ◌⊎◌, ◌↔◌, inl, inr, List, [], ◌∷◌, ◌==◌, elem, arith,
  eq_iff, Bool-cases, eq_of_==, ne_of_==,
}
use ai_inference_managed_by.Gateway.Auth.{
  AuthLevel, optional, recommended, forced, AuthConfig, HttpRequest, served, build_key_set,
  check_token, is_write_method, extract_bearer_token, at_level, floor, auth, resolve_auth_level,
}

-- A token that is one of the configured keys, and not empty.
abbrev pub HasKey : AuthConfig → String → Type 0
HasKey cfg token = (token ≢ "") × (elem cfg.api_keys token ≡ true)

-- What the level of a unit asks of a token, and what a write asks whatever the level.
abbrev pub Admits : AuthConfig → Bool → AuthLevel → String → Type 0
Admits cfg write optional token =
    HasKey cfg token ⊎ ((write ≡ false) × (token ≡ "")) ⊎ ((write ≡ true) × (cfg.enabled ≡ false))
Admits cfg write recommended token = HasKey cfg token ⊎ (cfg.enabled ≡ false)
Admits cfg write forced token = HasKey cfg token

elem-build_key_set :
    (keys : List String) (k : String)
    → (k == "") ≡ false
    → elem (build_key_set keys) k ≡ elem keys k
elem-build_key_set [] k h = refl
elem-build_key_set (x ∷ keys) k h =
    ground (arith, elem-build_key_set keys k h, eq_iff x k, eq_iff x "", eq_iff k "")

module _ (cfg : AuthConfig) (token : String) where
  -- What `check_token` finds.
  check_token-HasKey : (check_token (build_key_set cfg.api_keys) token ≡ served) ↔ HasKey cfg token
  check_token-HasKey = (
    (λ (e : check_token (build_key_set cfg.api_keys) token ≡ served).
        (ground (arith, eq_iff token ""), ground (arith, elem-build_key_set cfg.api_keys token))),
    (λ (h : HasKey cfg token).
        ground (arith, h.0, h.1, eq_iff token "", elem-build_key_set cfg.api_keys token)),
  )

  recommended-Admits :
      (at_level cfg recommended token ≡ served) ↔ (HasKey cfg token ⊎ (cfg.enabled ≡ false))
  unfolding at_level
  recommended-Admits = elim (Bool-cases cfg.enabled) [
    | inr off ↦ ((λ e. inr off), (λ h. rw off refl))
    | inl on ↦ rw on (
      (λ e. inl (check_token-HasKey.0 e)),
      (λ h. elim h [ inl k ↦ check_token-HasKey.1 k | inr off ↦ cc ]),
    )
  ]

  -- On an optional unit a read needs no token.
  optional-Admits : (at_level cfg optional token ≡ served) ↔ (HasKey cfg token ⊎ (token ≡ ""))
  unfolding at_level
  optional-Admits = elim (Bool-cases (token == "")) [
    | inl e ↦ ((λ h. inr (eq_of_== token "" e)), (λ h. rw e refl))
    | inr n ↦ (
      (λ h. inl (check_token-HasKey.0 (ground (arith, h, n)))),
      (λ h. elim h [
        | inl k ↦ ground (arith, check_token-HasKey.1 k, n)
        | inr e ↦ absurd (ne_of_== token "" n e)
      ]),
    )
  ]

  at_level-Admits :
      (write : Bool) (level : AuthLevel)
      → (at_level cfg (floor write level) token ≡ served) ↔ Admits cfg write level token
  unfolding at_level
  at_level-Admits write forced = check_token-HasKey
  at_level-Admits write recommended = recommended-Admits
  at_level-Admits true optional = (
    (λ e. elim (recommended-Admits.0 e) [ inl k ↦ inl k | inr off ↦ inr (inr (refl, off)) ]),
    (λ h.
        recommended-Admits.1
          (elim h [ inl k ↦ inl k | inr (inl r) ↦ absurd (cc) | inr (inr r) ↦ inr r.1 ])),
  )
  at_level-Admits false optional = (
    (λ e. elim (optional-Admits.0 e) [ inl k ↦ inl k | inr e ↦ inr (inl (refl, e)) ]),
    (λ h.
        optional-Admits.1
          (elim h [ inl k ↦ inl k | inr (inl r) ↦ inr r.1 | inr (inr r) ↦ absurd (cc) ])),
  )

-- A request that is no OPTIONS request is served exactly when the level that the configuration gives the unit named in X-Unit, recommended for a unit it does not name, admits
-- its token: a forced unit asks for one of the keys; a recommended one too, unless authentication is off;
-- an optional one asks that of a write, and of a read only if there is a token at all.
pub auth_iff :
    (cfg : AuthConfig) (r : HttpRequest)
    → (r.method == "OPTIONS") ≡ false
    → (auth cfg r ≡ served)
      ↔ Admits cfg
          (is_write_method r.method)
          (resolve_auth_level r.x_unit cfg.unit_auth_levels)
          (extract_bearer_token r)
unfolding auth
auth_iff cfg r h = rw h (
    at_level-Admits cfg (extract_bearer_token r) (is_write_method r.method)
      (resolve_auth_level r.x_unit cfg.unit_auth_levels))
