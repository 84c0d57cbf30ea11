-- ===== src/Workflow/Examples.antt =====
-- Workflows on which the theorems about pkg/workflow are applied.
use ai_inference_managed_by.Workflow.Types.{
  fields_of, completed, Value, text, Fields, end, field, WorkflowStep, WorkflowDef,
}
use ai_inference_managed_by.Workflow.Resolver.{
  walk, resolve_string, resolve_step_input, resolve_reference, resolve_pieces, resolve_parts,
  resolve_output, resolve_from_map, interpolate, get_field, resolve_map,
}
use ai_inference_managed_by.Workflow.Refs.{refs_of, split_dots, pieces, emit}
use ai_inference_managed_by.Workflow.Validator.{check_parts, ValidationResult, validate}
use ai_inference_managed_by.Workflow.Engine.{
  finish_output, execute_unit, execute_steps, execute_step, attempt, after_step, max_attempts,
  unit_error, finished, execute, WorkflowEngine, ExecutionResult, ErrorText, Effects, Outcome,
}
use ai_inference_managed_by.Workflow.Cycles.{
  enter, CycleError, detect_cycles, search_from, flag, visit, visit_deps, leave,
}
use ai_inference_managed_by.Workflow.Dsl.{step_ids, get_step_by_id}
use ai_inference_managed_by.Base.{
  map, arith, ◌<◌, All-imp, suc, false, All, ◌↔◌, ℕ, String, List, [], ◌∷◌, Option, none, some,
  true, ◌≡◌, refl,
}
use ai_inference_managed_by.Workflow.Engine.Promise.{
  execute-IsRecorded, IsRecorded, execute-completed,
}
use ai_inference_managed_by.Workflow.Cycles.Verdict.{detect_cycles_iff}
use ai_inference_managed_by.Workflow.Validator.Occurs.{AreRefs, validate_sound}
use ai_inference_managed_by.Workflow.Validator.WellFormed.{
  validate-IsWellFormed, deps-IsClosed, validate-IsAccepted, IsWellFormed, IsAccepted, IsStep,
}
use ai_inference_managed_by.Workflow.Sort.{
  insertion_order, fetch, relax_steps, relax_deps, relax_dep, degree, index_steps, count_deps,
  initial_queue, drain, topological_sort,
}
use ai_inference_managed_by.Workflow.Schedule.{IsSchedule}
use ai_inference_managed_by.Workflow.Cycles.Path.{HasCycle, IsClosed}
use ai_inference_managed_by.Workflow.Cycles.Fuel.{detect_cycles_terminates}
use ai_inference_managed_by.Workflow.Sort.Correct.{
  topological_sort_complete, topological_sort_sound, IsOrdered,
}
use mathlib.Core.List.{Perm}
use ai_inference_managed_by.Workflow.Engine.Run.{sort_accepted, completed_in}
use ai_inference_managed_by.Workflow.Refs
use ai_inference_managed_by.Base.Result.{ok}
use ai_inference_managed_by.Base.Map.{insert, lookup}
use ai_inference_managed_by.Workflow.Engine.Async.{execute_async, bare_result}
use ai_inference_managed_by.Workflow.Engine.Async.Promise.{IsEnded, execute_async-IsEnded}
use ai_inference_managed_by.Workflow.Store.{get_execution, save_all, new_workflow_store}

abbrev step : String → List String → Option Fields → WorkflowStep
step id deps input = record {
  id = id;
  type = "model.run";
  input = input;
  depends_on = deps;
  on_failure = "abort";
  retry = none;
}

abbrev def_of : List WorkflowStep → WorkflowDef
def_of steps = record {
  name = "example";
  description = "";
  config = none;
  steps = steps;
  output = some (field "answer" (text "${steps.b.out}") end);
}

-- b depends on a, and uses its output; c depends on both.
abbrev pub chain : WorkflowDef
chain = def_of (
    step "c" ("a" ∷ "b" ∷ []) none
    ∷ step "b" ("a" ∷ []) (some (field "prompt" (text "${steps.a.out}") end))
    ∷ step "a" [] none
    ∷ [])

-- a and b depend on each other.
abbrev loop : WorkflowDef
loop = def_of (step "a" ("b" ∷ []) none ∷ step "b" ("a" ∷ []) none ∷ [])

chain-sorted :
    topological_sort insertion_order chain
    ≡ some (
        ok (
          some (step "a" [] none)
          ∷ some (step "b" ("a" ∷ []) (some (field "prompt" (text "${steps.a.out}") end)))
          ∷ some (step "c" ("a" ∷ "b" ∷ []) none)
          ∷ []))
unfolding topological_sort drain initial_queue count_deps index_steps degree relax_dep relax_deps
    relax_steps fetch lookup insert
chain-sorted = refl

pub chain-IsAccepted : IsAccepted chain
unfolding validate detect_cycles search_from flag lookup visit index_steps insert visit_deps leave
chain-IsAccepted = (_, refl, refl)

loop-rejected : (v : ValidationResult) × (validate loop ≡ some v) × (v.valid ≡ false)
unfolding validate detect_cycles search_from flag lookup visit index_steps insert visit_deps leave
loop-rejected = (_, refl, refl)

chain-IsWellFormed : IsWellFormed chain
chain-IsWellFormed = validate-IsWellFormed chain chain-IsAccepted

validate_sound_example :
    IsWellFormed chain
    × All (λ s. AreRefs (step_ids chain.steps) (fields_of s.input)) chain.steps
    × AreRefs (step_ids chain.steps) (fields_of chain.output)
validate_sound_example = validate_sound chain chain-IsAccepted

validate-IsAccepted_example : IsAccepted chain
validate-IsAccepted_example = validate-IsAccepted chain chain-IsWellFormed

chain-IsClosed : IsClosed chain.steps
chain-IsClosed =
    deps-IsClosed chain (
      All-imp (IsStep (step_ids chain.steps)) _ chain.steps (λ s h. h.deps)
        chain-IsWellFormed.steps)

abbrev chain_steps : List (Option WorkflowStep)
chain_steps =
    some (step "a" [] none)
    ∷ some (step "b" ("a" ∷ []) (some (field "prompt" (text "${steps.a.out}") end)))
    ∷ some (step "c" ("a" ∷ "b" ∷ []) none)
    ∷ []

topological_sort_sound_example : Perm chain_steps (map some chain.steps) × IsOrdered [] chain_steps
topological_sort_sound_example =
    topological_sort_sound insertion_order chain chain-IsWellFormed.unique chain_steps chain-sorted

chain-IsSchedule : IsSchedule chain.steps [] ("a" ∷ "b" ∷ "c" ∷ [])
unfolding get_step_by_id
chain-IsSchedule = ((_, refl, tt), ((_, refl, (refl, tt)), ((_, refl, (refl, (refl, tt))), tt)))

topological_sort_complete_example :
    (sorted : List (Option WorkflowStep)) × (topological_sort insertion_order chain
      ≡ some (ok sorted))
topological_sort_complete_example =
    topological_sort_complete insertion_order chain chain-IsWellFormed.unique ("a" ∷ "b" ∷ "c" ∷ [])
      chain-IsSchedule (refl, (refl, (refl, tt)))

detect_cycles_iff_example : (detect_cycles chain ≡ some none) ↔ (¬ HasCycle chain.steps)
detect_cycles_iff_example = detect_cycles_iff chain chain-IsWellFormed.unique chain-IsClosed

detect_cycles_terminates_example : (r : Option CycleError) × (detect_cycles loop ≡ some r)
detect_cycles_terminates_example = detect_cycles_terminates loop

sort_accepted_example :
    (sorted : List (Option WorkflowStep)) × (topological_sort insertion_order chain
      ≡ some (ok sorted))
    × Perm sorted (map some chain.steps)
    × IsOrdered [] sorted
sort_accepted_example = sort_accepted insertion_order chain chain-IsAccepted

-- Units that answer with their type, in a world that counts the calls.
abbrev pub counting : WorkflowEngine ℕ
counting = record {
  executor = some (λ type input w. (ok (field "out" (text type) end), suc w));
  registered = false;
  get_command = λ type. none;
  get_query = λ type. none;
}

abbrev pub plain_format : Value → String
plain_format (text s) = s
plain_format _ = "?"

abbrev pub show_error : ErrorText → Value
show_error (unit_error s) = text s
show_error _ = text "error"

abbrev no_effects : Effects ℕ
no_effects = record { world = 0; saved = [] }

abbrev run_chain : Outcome × Effects ℕ
run_chain = execute ℕ counting plain_format show_error insertion_order "run-1" chain end no_effects

execute-IsRecorded_example :
    IsRecorded ℕ counting plain_format show_error insertion_order "run-1" chain end no_effects
      run_chain
execute-IsRecorded_example =
    execute-IsRecorded ℕ counting plain_format show_error insertion_order "run-1" chain end
      no_effects

pub chain-tries : All (λ s. 0 < max_attempts ℕ counting s) chain.steps
chain-tries = (omega arith, (omega arith, (omega arith, tt)))

chain-runs : (r : ExecutionResult) × (f' : Effects ℕ) × (run_chain ≡ (finished r none, f'))
unfolding execute validate detect_cycles search_from flag lookup visit index_steps insert visit_deps
    leave topological_sort drain initial_queue count_deps degree relax_steps relax_deps relax_dep
    fetch enter after_step attempt execute_step execute_steps execute_unit finish_output emit pieces
    split_dots Refs.step get_field interpolate resolve_from_map resolve_map resolve_output
    resolve_parts resolve_pieces resolve_reference resolve_step_input resolve_string walk
    check_parts
chain-runs = (_, _, refl)

execute-completed_example :
    (chain-runs.0.status ≡ completed)
    × All (λ s. completed_in chain-runs.0.step_results s.id ≡ true) chain.steps
execute-completed_example =
    execute-completed ℕ counting plain_format show_error insertion_order "run-1" chain end
      no_effects chain-IsAccepted chain-runs.0 chain-runs.1 chain-runs.2

execute_async-IsEnded_example :
    (f' : Effects ℕ) × (final : ExecutionResult) × (execute_async ℕ counting plain_format show_error
        insertion_order "outer" "inner" chain end no_effects
      ≡ some (ok (bare_result chain "outer"), f'))
    × (get_execution "outer" (save_all f'.saved new_workflow_store) ≡ some final)
    × IsEnded final
execute_async-IsEnded_example =
    execute_async-IsEnded ℕ counting plain_format show_error insertion_order "outer" "inner" chain
      end no_effects chain-IsAccepted chain-tries new_workflow_store
