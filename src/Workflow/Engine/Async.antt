-- ===== src/Workflow/Engine/Async.antt =====
-- ExecuteAsync and RegisterWorkflow of pkg/workflow/engine.go. The goroutine of ExecuteAsync runs here
-- to its end: it calls Execute, which draws a run id of its own, and saves a second result under
-- the id that the caller was given. The map of running runs and Cancel are left out: Execute reads
-- neither, and a cancelled context reaches only the units.
pub mod Promise
pub mod Register
use ai_inference_managed_by.Base.{
  String, Bool, true, false, List, [], ◌∷◌, ◌++◌, Option, none, some,
}
use ai_inference_managed_by.Base.Result.{Result, ok, err}
use ai_inference_managed_by.Workflow.Types.{
  Value, Fields, end, WorkflowDef, completed, failed, running,
}
use ai_inference_managed_by.Workflow.Validator.{ValidationError, validate}
use ai_inference_managed_by.Workflow.Sort.{RangeOrder}
use ai_inference_managed_by.Workflow.Dsl.{DslError}
use ai_inference_managed_by.Workflow.Store.{InMemoryWorkflowStore, save_workflow}
use ai_inference_managed_by.Workflow.Engine.{
  ErrorText, ExecutionResult, Outcome, invalid, unsorted, finished, crashed, no_fuel, Effects,
  WorkflowEngine, execute,
}

-- A result with no steps yet, as ExecuteAsync makes two of them.
abbrev pub bare_result : WorkflowDef → String → ExecutionResult
bare_result def run_id = record {
  workflow_id = def.name;
  run_id = run_id;
  status = running;
  step_results = [];
  output = end;
  error = none;
}

-- What the goroutine makes of Execute's return values; `none` if that panicked. The text of an error
-- that Execute wraps is the text of its cause here.
unfoldable pub final_result : WorkflowDef → String → Outcome → Option ExecutionResult
final_result def run_id (finished r none) = some (record (bare_result def run_id) {
  status = r.status;
  output = r.output;
  step_results = r.step_results;
})
final_result def run_id (finished r (some error)) =
    some (record (bare_result def run_id) { status = failed; error = some error })
final_result def run_id (invalid errors) =
    some (record (bare_result def run_id) { status = failed })
final_result def run_id unsorted = some (record (bare_result def run_id) { status = failed })
final_result def run_id crashed = none
final_result def run_id no_fuel = none

module _ (W : Type 0) (e : WorkflowEngine W) (format : Value → String) (show : ErrorText → Value)
    (range : RangeOrder) where
  unfoldable pub save_final : Option ExecutionResult → Effects W → Effects W
  save_final none f = f
  save_final (some r) f = record f { saved = f.saved ++ r ∷ [] }

  -- The goroutine.
  unfoldable pub run_async : String → String → WorkflowDef → Fields → Effects W → Effects W
  unfolding save_final final_result
  run_async run_id inner_id def input f =
      let r = execute W e format show range inner_id def input f in
      save_final (final_result def run_id r.0) r.1

  -- The result that the caller has at once, and what the goroutine does later.
  unfoldable pub execute_async :
      String
      → String
      → WorkflowDef
      → Fields
      → Effects W
      → Option (Result (List ValidationError) ExecutionResult × Effects W)
  unfolding run_async
  execute_async run_id inner_id def input f = elim (validate def) [
    | none ↦ none
    | some v ↦ elim v.valid [
      | false ↦ some (err v.errors, f)
      | true ↦ some (ok (bare_result def run_id), run_async run_id inner_id def input f)
    ]
  ]

-- RegisterWorkflow; `none` is a run of the validator that does not end. The text of a rejection lists
-- the errors of the validation.
unfoldable pub register_workflow :
    WorkflowDef
    → InMemoryWorkflowStore
    → Option (Result (List ValidationError) (Option DslError) × InMemoryWorkflowStore)
unfolding save_workflow
register_workflow def s = elim (validate def) [
  | none ↦ none
  | some v ↦
      let r = save_workflow (some def) s in
      elim v.valid [ false ↦ some (err v.errors, s) | true ↦ some (ok r.0, r.1) ]
]
