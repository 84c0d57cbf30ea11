-- ===== src/Workflow/Validator.antt =====
-- DAGValidator of pkg/workflow/validator.go. An error is a constructor with what its message shows.
-- Ranging over a map's values visits them in the order of the association list.
mod Accumulate
pub mod WellFormed
pub mod Occurs
use mathlib.Core.Option
use ai_inference_managed_by.Base.{
  ℕ, suc, ◌≡◌, refl, String, Bool, true, false, not, ◌&&◌, ◌||◌, List, [], ◌∷◌, ◌++◌, ◌==◌, Option,
  none, some, leb, if◌then◌else◌, elem,
}
use ai_inference_managed_by.Base.Map.{Map, lookup, insert}
use ai_inference_managed_by.Workflow.Types.{
  Value, scalar, text, array, object, Items, nil, cons, Fields, end, field, fields_of, WorkflowStep,
  WorkflowDef,
}
use ai_inference_managed_by.Workflow.Dsl.{step_ids, is_empty}
use ai_inference_managed_by.Workflow.Refs.{out, pieces, refs_of, split_dots, validator_class}
use ai_inference_managed_by.Workflow.Cycles.{CycleError, detect_cycles}

pub data RefError : Type 0 where
  invalid_reference : String → RefError
  non_existent_step : (ref step_id : String) → RefError
  unknown_source : (source ref : String) → RefError

pub data ValidationError : Type 0 where
  no_steps : ValidationError
  empty_id : (index : ℕ) → ValidationError
  duplicate_id : (index : ℕ) (id : String) (first : ℕ) → ValidationError
  empty_type : (index : ℕ) → ValidationError
  invalid_on_failure : (index : ℕ) (value : String) → ValidationError
  non_existent_dependency : (step_id dep : String) → ValidationError
  self_dependency : (step_id : String) → ValidationError
  circular : CycleError → ValidationError
  bad_input_reference : (step_id : String) → RefError → ValidationError
  bad_output_reference : RefError → ValidationError

pub record ValidationResult : Type 0 where
  pub valid : Bool
  pub errors : List ValidationError

-- result.Valid = false; result.Errors = append(result.Errors, e)
unfoldable pub add_error : ValidationError → ValidationResult → ValidationResult
add_error e r = record { valid = false; errors = r.errors ++ e ∷ [] }

unfoldable pub add_if : Bool → ValidationError → ValidationResult → ValidationResult
unfolding add_error
add_if b e r = if b then add_error e r else r

abbrev pub valid_on_failure : String → Bool
valid_on_failure v = v == "abort" || v == "continue" || v == "retry"

-- The checks of validateSteps on one step with an id, with `seen` for the map from ids to indices.
unfoldable pub check_step : ℕ → Map ℕ → WorkflowStep → ValidationResult → ValidationResult
unfolding add_if
check_step i seen s r =
    let r1 : ValidationResult = elim (lookup s.id seen) [
      | none ↦ r
      | some first ↦ add_error (duplicate_id i s.id first) r
    ] in
    let r2 = add_if (s.type == "") (empty_type i) r1 in
    add_if (not (s.on_failure == "") && not (valid_on_failure s.on_failure))
      (invalid_on_failure i s.on_failure) r2

unfoldable pub validate_steps_from :
    ℕ → Map ℕ → List WorkflowStep → ValidationResult → ValidationResult
unfolding check_step
validate_steps_from i seen [] r = r
validate_steps_from i seen (s ∷ ss) r =
    let skip = s.id == "" in
    validate_steps_from (suc i) (if skip then seen else insert s.id i seen) ss
      (if skip then add_error (empty_id i) r else check_step i seen s r)

unfoldable pub validate_steps : WorkflowDef → ValidationResult → ValidationResult
unfolding validate_steps_from
validate_steps def r =
    if is_empty def.steps then add_error no_steps r else validate_steps_from 0 [] def.steps r

unfoldable pub validate_deps :
    List String → String → List String → ValidationResult → ValidationResult
unfolding add_if
validate_deps ids id [] r = r
validate_deps ids id (dep ∷ deps) r = validate_deps ids id deps (
    add_if (dep == id) (self_dependency id)
      (add_if (not (elem ids dep)) (non_existent_dependency id dep) r))

unfoldable pub validate_all_deps :
    List String → List WorkflowStep → ValidationResult → ValidationResult
unfolding validate_deps
validate_all_deps ids [] r = r
validate_all_deps ids (s ∷ ss) r = validate_all_deps ids ss (validate_deps ids s.id s.depends_on r)

-- validateDependencies; `none` if the search for cycles has no fuel, which does not happen.
unfoldable pub validate_dependencies : WorkflowDef → ValidationResult → Option ValidationResult
unfolding validate_all_deps
validate_dependencies def r =
    let r1 = validate_all_deps (step_ids def.steps) def.steps r in
    elim (detect_cycles def) [
      | none ↦ none
      | some found ↦ elim found [ none ↦ some r1 | some e ↦ some (add_error (circular e) r1) ]
    ]

unfoldable mutual
  unfolding pieces

  pub extract_variable_refs : Value → List String
  extract_variable_refs (scalar s) = []
  extract_variable_refs (text s) = refs_of (pieces validator_class out s)
  extract_variable_refs (array xs) = extract_items xs
  extract_variable_refs (object fs) = extract_fields fs

  pub extract_items : Items → List String
  extract_items nil = []
  extract_items (cons x xs) = extract_variable_refs x ++ extract_items xs

  pub extract_fields : Fields → List String
  extract_fields end = []
  extract_fields (field k v fs) = extract_variable_refs v ++ extract_fields fs

-- validateVarRef on the parts of the reference
unfoldable pub check_parts : List String → String → List String → Option RefError
check_parts ids ref [] = some (invalid_reference ref)
check_parts ids ref (source ∷ []) = some (invalid_reference ref)
check_parts ids ref (source ∷ step_id ∷ rest) =
    if source == "input"
    then none
    else if source == "config"
    then none
    else if source == "steps"
    then (if elem ids step_id then none else some (non_existent_step ref step_id))
    else some (unknown_source source ref)

unfoldable pub validate_var_ref : List String → String → Option RefError
unfolding check_parts split_dots
validate_var_ref ids ref = check_parts ids ref (split_dots "" ref)

-- The loop over the references of one place, with `wrap` for the error's field.
unfoldable pub validate_refs :
    List String → (RefError → ValidationError) → List String → ValidationResult → ValidationResult
unfolding validate_var_ref add_error
validate_refs ids wrap [] r = r
validate_refs ids wrap (ref ∷ refs) r =
    validate_refs ids wrap refs
      (elim (validate_var_ref ids ref) [ none ↦ r | some e ↦ add_error (wrap e) r ])

unfoldable pub validate_variable_references :
    List String → List WorkflowStep → ValidationResult → ValidationResult
unfolding validate_refs extract_variable_refs
validate_variable_references ids [] r = r
validate_variable_references ids (s ∷ ss) r =
    validate_variable_references ids ss
      (validate_refs ids (bad_input_reference s.id) (extract_fields (fields_of s.input)) r)

unfoldable pub validate_output_references : WorkflowDef → ValidationResult → ValidationResult
unfolding validate_refs extract_variable_refs
validate_output_references def r =
    validate_refs (step_ids def.steps) bad_output_reference (extract_fields (fields_of def.output))
      r

abbrev pub no_errors : ValidationResult
no_errors = record { valid = true; errors = [] }

unfoldable pub validate : WorkflowDef → Option ValidationResult
unfolding validate_steps validate_dependencies validate_variable_references
    validate_output_references
validate def =
    Option.map
      (λ r.
        validate_output_references def
          (validate_variable_references (step_ids def.steps) def.steps r))
      (validate_dependencies def (validate_steps def no_errors))
