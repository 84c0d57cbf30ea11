-- ===== src/Workflow/Validator/Accumulate.antt =====
-- What each check of DAGValidator (pkg/workflow/validator.go) does to the flag `Valid`: the flag
-- stays set exactly if the check finds nothing.
use ai_inference_managed_by.Base.{
  inr, inl, ◌∙◌, Bool-cases, ℕ, suc, ◌≡◌, String, Bool, true, not, ◌&&◌, ◌||◌, List, [], ◌∷◌, ◌==◌,
  none, some, arith, elem,
}
use ai_inference_managed_by.Workflow.Validator.{
  empty_id, non_existent_dependency, self_dependency, bad_output_reference, bad_input_reference,
  RefError, ValidationError, ValidationResult, add_error, add_if, valid_on_failure, check_step,
  validate_steps_from, validate_steps, validate_deps, validate_all_deps, extract_fields,
  validate_var_ref, validate_refs, validate_variable_references, validate_output_references,
}
use ai_inference_managed_by.Base.Map.{Map, lookup, insert, is_some}
use ai_inference_managed_by.Workflow.Types.{fields_of, WorkflowStep, WorkflowDef}
use ai_inference_managed_by.Workflow.Dsl.{step_ids, is_empty}

abbrev pub all {ℓ} : {A : Type ℓ} → (A → Bool) → List A → Bool
all p [] = true
all p (x ∷ xs) = p x && all p xs

-- The flag as it was, and the condition.
abbrev pub Keeps : ValidationResult → ValidationResult → Bool → Type 0
Keeps r r' b = r'.valid ≡ (r.valid && b)

abbrev pub step_ok : WorkflowStep → Bool
step_ok s =
    not (s.id == "") && not (s.type == "") && (s.on_failure == "" || valid_on_failure s.on_failure)

-- No id is in the map or stands twice.
abbrev pub fresh_ids : Map ℕ → ℕ → List WorkflowStep → Bool
fresh_ids seen i [] = true
fresh_ids seen i (s ∷ ss) =
    not (is_some (lookup s.id seen)) && fresh_ids (insert s.id i seen) (suc i) ss

check_step-Keeps :
    (i : ℕ) (seen : Map ℕ) (s : WorkflowStep) (r : ValidationResult)
    → Keeps r (check_step i seen s r) (
        not (is_some (lookup s.id seen))
        && not (s.type == "")
        && (s.on_failure == "" || valid_on_failure s.on_failure))
unfolding check_step
check_step-Keeps i seen s r = ground arith

pub validate_steps_from-Keeps :
    (i : ℕ) (seen : Map ℕ) (ss : List WorkflowStep) (r : ValidationResult)
    → Keeps r (validate_steps_from i seen ss r) (all step_ok ss && fresh_ids seen i ss)
unfolding validate_steps_from add_error
validate_steps_from-Keeps i seen [] r = ground arith
validate_steps_from-Keeps i seen (s ∷ ss) r = elim (Bool-cases (s.id == "")) [
  | inl e ↦ ground (arith, e, validate_steps_from-Keeps (suc i) seen ss (add_error (empty_id i) r))
  | inr e ↦ ground (
    arith,
    e,
    check_step-Keeps i seen s r,
    validate_steps_from-Keeps (suc i) (insert s.id i seen) ss (check_step i seen s r),
  )
]

pub validate_steps-Keeps :
    (def : WorkflowDef) (r : ValidationResult)
    → Keeps r
        (validate_steps def r)
        (not (is_empty def.steps) && all step_ok def.steps && fresh_ids [] 0 def.steps)
unfolding validate_steps add_error
validate_steps-Keeps def r = ground (arith, validate_steps_from-Keeps 0 [] def.steps r)

abbrev pub dep_ok : List String → String → String → Bool
dep_ok ids id d = elem ids d && not (d == id)

validate_deps-Keeps :
    (ids : List String) (id : String) (deps : List String) (r : ValidationResult)
    → Keeps r (validate_deps ids id deps r) (all (dep_ok ids id) deps)
unfolding validate_deps
validate_deps-Keeps ids id [] r = ground arith
validate_deps-Keeps ids id (d ∷ ds) r =
    validate_deps-Keeps ids id ds (
      add_if (d == id) (self_dependency id)
        (add_if (not (elem ids d)) (non_existent_dependency id d) r))
    ∙ ground arith

pub validate_all_deps-Keeps :
    (ids : List String) (ss : List WorkflowStep) (r : ValidationResult)
    → Keeps r (validate_all_deps ids ss r) (all (λ s. all (dep_ok ids s.id) s.depends_on) ss)
unfolding validate_all_deps
validate_all_deps-Keeps ids [] r = ground arith
validate_all_deps-Keeps ids (s ∷ ss) r =
    validate_all_deps-Keeps ids ss (validate_deps ids s.id s.depends_on r)
    ∙ ground (arith, validate_deps-Keeps ids s.id s.depends_on r)

abbrev pub ref_ok : List String → String → Bool
ref_ok ids ref = not (is_some (validate_var_ref ids ref))

validate_refs-Keeps :
    (ids : List String) (wrap : RefError → ValidationError) (refs : List String)
    (r : ValidationResult)
    → Keeps r (validate_refs ids wrap refs r) (all (ref_ok ids) refs)
unfolding validate_refs add_error
validate_refs-Keeps ids wrap [] r = ground arith
validate_refs-Keeps ids wrap (ref ∷ refs) r =
    let next : ValidationResult = elim (validate_var_ref ids ref) [
      | none ↦ r
      | some e ↦ add_error (wrap e) r
    ] in
    validate_refs-Keeps ids wrap refs next ∙ ground arith

pub validate_variable_references-Keeps :
    (ids : List String) (ss : List WorkflowStep) (r : ValidationResult)
    → Keeps r
        (validate_variable_references ids ss r)
        (all (λ s. all (ref_ok ids) (extract_fields (fields_of s.input))) ss)
unfolding validate_variable_references
validate_variable_references-Keeps ids [] r = ground arith
validate_variable_references-Keeps ids (s ∷ ss) r =
    validate_variable_references-Keeps ids ss
      (validate_refs ids (bad_input_reference s.id) (extract_fields (fields_of s.input)) r)
    ∙ ground (
      arith,
      validate_refs-Keeps ids (bad_input_reference s.id) (extract_fields (fields_of s.input)) r,
    )

pub validate_output_references-Keeps :
    (def : WorkflowDef) (r : ValidationResult)
    → Keeps r
        (validate_output_references def r)
        (all (ref_ok (step_ids def.steps)) (extract_fields (fields_of def.output)))
unfolding validate_output_references
validate_output_references-Keeps def r =
    validate_refs-Keeps (step_ids def.steps) bad_output_reference
      (extract_fields (fields_of def.output)) r
