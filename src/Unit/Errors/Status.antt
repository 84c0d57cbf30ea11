-- ===== src/Unit/Errors/Status.antt =====
-- How the HTTP status of an error (pkg/unit/errors.go) agrees with the tests on errors.
use ai_inference_managed_by.Base.{
  String, true, false, ◌≡◌, refl, elem, All, All-elem, Bool-cases, or_left, or_right, inl, inr,
  arith, eqb, some, ◌==◌, List, [], ◌∷◌,
}
use ai_inference_managed_by.Unit.Errors.{
  GoError, UnitError, new_error, unit_error, code_of, as_unit_error, error_to_http_status,
  is_not_found, is_already_exists,
}

abbrev switch_codes : List String
switch_codes =
    "00000" ∷ "00001" ∷ "00002" ∷ "00003" ∷ "00004" ∷ "00005" ∷ "00006" ∷ "00007" ∷ "00008"
    ∷ "00009" ∷ "00010" ∷ "00100" ∷ "00101" ∷ "00200" ∷ "00201" ∷ "00303" ∷ "00304" ∷ "00400"
    ∷ "00402" ∷ "00500" ∷ "00600" ∷ "00700" ∷ "00800" ∷ "00900" ∷ "01000" ∷ "01001" ∷ "01100"
    ∷ "01101" ∷ "01102" ∷ "01103" ∷ "01200" ∷ "01201" ∷ "01202" ∷ "01203" ∷ "01300" ∷ "01301"
    ∷ "01302" ∷ []

-- Both tests, as the code reads them from a UnitError, against the status of its code.
abbrev Agrees : String → Type 0
Agrees c =
    (is_not_found (unit_error (new_error c "")) ≡ eqb (error_to_http_status c) 404)
    × (is_already_exists (unit_error (new_error c "")) ≡ eqb (error_to_http_status c) 409)

known-Agrees : (c : String) → elem switch_codes c ≡ true → Agrees c
unfolding is_not_found is_already_exists error_to_http_status as_unit_error
known-Agrees c known =
    All-elem Agrees switch_codes c
      (
        (refl, refl),
        (
          (refl, refl),
          (
            (refl, refl),
            (
              (refl, refl),
              (
                (refl, refl),
                (
                  (refl, refl),
                  (
                    (refl, refl),
                    (
                      (refl, refl),
                      (
                        (refl, refl),
                        (
                          (refl, refl),
                          (
                            (refl, refl),
                            (
                              (refl, refl),
                              (
                                (refl, refl),
                                (
                                  (refl, refl),
                                  (
                                    (refl, refl),
                                    (
                                      (refl, refl),
                                      (
                                        (refl, refl),
                                        (
                                          (refl, refl),
                                          (
                                            (refl, refl),
                                            (
                                              (refl, refl),
                                              (
                                                (refl, refl),
                                                (
                                                  (refl, refl),
                                                  (
                                                    (refl, refl),
                                                    (
                                                      (refl, refl),
                                                      (
                                                        (refl, refl),
                                                        (
                                                          (refl, refl),
                                                          (
                                                            (refl, refl),
                                                            (
                                                            (refl, refl),
                                                            (
                                                            (refl, refl),
                                                            (
                                                            (refl, refl),
                                                            (
                                                            (refl, refl),
                                                            (
                                                            (refl, refl),
                                                            (
                                                            (refl, refl),
                                                            (
                                                            (refl, refl),
                                                            (
                                                            (refl, refl),
                                                            ((refl, refl), ((refl, refl), tt)),
                                                            ),
                                                            ),
                                                            ),
                                                            ),
                                                            ),
                                                            ),
                                                            ),
                                                            ),
                                                          ),
                                                        ),
                                                      ),
                                                    ),
                                                  ),
                                                ),
                                              ),
                                            ),
                                          ),
                                        ),
                                      ),
                                    ),
                                  ),
                                ),
                              ),
                            ),
                          ),
                        ),
                      ),
                    ),
                  ),
                ),
              ),
            ),
          ),
        ),
      )
      known

unnamed : (xs : List String) (k : String) → elem xs k ≡ false → All (λ x. (x == k) ≡ false) xs
unnamed [] k h = tt
unnamed (x ∷ xs) k h = (or_left (x == k) _ h, unnamed xs k (or_right (x == k) _ h))

-- A code that the switch does not name takes its default, and no test accepts it.
other-Agrees : (c : String) → elem switch_codes c ≡ false → Agrees c
unfolding is_not_found is_already_exists as_unit_error error_to_http_status
other-Agrees c other =
    let (
      h_success,
      (
        h_unknown,
        (
          h_invalid_request,
          (
            h_unauthorized,
            (
              h_not_found,
              (
                h_already_exists,
                (
                  h_timeout,
                  (
                    h_rate_limited,
                    (
                      h_internal_error,
                      (
                        h_invalid_input,
                        (
                          h_validation_failed,
                          (
                            h_model_not_found,
                            (
                              h_model_already_exists,
                              (
                                h_engine_not_found,
                                (
                                  h_engine_already_running,
                                  (
                                    h_inference_timeout,
                                    (
                                      h_inference_rate_limited,
                                      (
                                        h_resource_insufficient,
                                        (
                                          h_resource_slot_not_found,
                                          (
                                            h_device_not_found,
                                            (
                                              h_service_not_found,
                                              (
                                                h_app_not_found,
                                                (
                                                  h_pipeline_not_found,
                                                  (
                                                    h_alert_rule_not_found,
                                                    (
                                                      h_remote_not_enabled,
                                                      (
                                                        h_remote_exec_failed,
                                                        (
                                                          h_recipe_not_found,
                                                          (
                                                            h_recipe_already_exists,
                                                            (
                                                            h_recipe_invalid,
                                                            (
                                                            h_recipe_apply_failed,
                                                            (
                                                            h_skill_not_found,
                                                            (
                                                            h_skill_already_exists,
                                                            (
                                                            h_skill_invalid,
                                                            (
                                                            h_builtin_skill_immutable,
                                                            (
                                                            h_agent_not_enabled,
                                                            (
                                                            h_agent_llm_error,
                                                            (h_conversation_not_found, rest),
                                                            ),
                                                            ),
                                                            ),
                                                            ),
                                                            ),
                                                            ),
                                                            ),
                                                            ),
                                                          ),
                                                        ),
                                                      ),
                                                    ),
                                                  ),
                                                ),
                                              ),
                                            ),
                                          ),
                                        ),
                                      ),
                                    ),
                                  ),
                                ),
                              ),
                            ),
                          ),
                        ),
                      ),
                    ),
                  ),
                ),
              ),
            ),
          ),
        ),
      ),
    ) =
      unnamed switch_codes c other in
    (
      simp (
        h_success, h_invalid_request, h_unauthorized, h_not_found, h_already_exists, h_timeout,
        h_rate_limited, h_invalid_input, h_validation_failed, h_model_not_found, h_engine_not_found,
        h_service_not_found, h_app_not_found, h_pipeline_not_found, h_alert_rule_not_found,
        h_device_not_found, h_resource_slot_not_found, h_recipe_not_found, h_skill_not_found,
        h_conversation_not_found, h_model_already_exists, h_engine_already_running,
        h_recipe_already_exists, h_skill_already_exists, h_recipe_invalid, h_skill_invalid,
        h_builtin_skill_immutable, h_agent_not_enabled, h_agent_llm_error, h_recipe_apply_failed,
        h_remote_not_enabled, h_remote_exec_failed,
      ),
      simp (
        h_success, h_invalid_request, h_unauthorized, h_not_found, h_already_exists, h_timeout,
        h_rate_limited, h_invalid_input, h_validation_failed, h_model_not_found, h_engine_not_found,
        h_service_not_found, h_app_not_found, h_pipeline_not_found, h_alert_rule_not_found,
        h_device_not_found, h_resource_slot_not_found, h_recipe_not_found, h_skill_not_found,
        h_conversation_not_found, h_model_already_exists, h_engine_already_running,
        h_recipe_already_exists, h_skill_already_exists, h_recipe_invalid, h_skill_invalid,
        h_builtin_skill_immutable, h_agent_not_enabled, h_agent_llm_error, h_recipe_apply_failed,
        h_remote_not_enabled, h_remote_exec_failed,
      ),
    )

every-Agrees : (c : String) → Agrees c
every-Agrees c = elim (Bool-cases (elem switch_codes c)) [
  | inl known ↦ known-Agrees c known
  | inr other ↦ other-Agrees c other
]

-- An error that holds a UnitError is answered with 404 exactly when IsNotFound accepts it, and with 409
-- exactly when IsAlreadyExists does.
pub status-tests :
    (e : GoError) (u : UnitError)
    → as_unit_error e ≡ some u
    → (is_not_found e ≡ eqb (error_to_http_status (code_of u)) 404)
      × (is_already_exists e ≡ eqb (error_to_http_status (code_of u)) 409)
unfolding is_not_found is_already_exists as_unit_error
status-tests e u h = (
  ground (arith, h, (every-Agrees (code_of u)).0),
  ground (arith, h, (every-Agrees (code_of u)).1),
)
