-- ===== src/Unit/Pipeline/Commands.antt =====
-- RunCommand, CancelCommand and DeleteCommand of pkg/unit/pipeline/commands.go, with the executor of
-- pkg/unit/pipeline/executor.go that they share: a run is started here, and its goroutine ends in a
-- later step. The clock and the run ids that are drawn are arguments.
--
-- GetPipeline gives the store's own pipeline, so a write to it is a write to the store. GetRun gives the
-- store's own run, which it has under the run's id, so that UpdateRun stores what CancelCommand wrote.
pub mod Promise
pub mod Races
use Prim.Native.String.{◌++◌ as append}
use ai_inference_managed_by.Base.{
  String, Bool, true, List, [], ◌∷◌, Option, none, some, ◌==◌, ◌||◌, elem, remove, false,
  if◌then◌else◌,
}
use ai_inference_managed_by.Base.Int.{ℤ}
use ai_inference_managed_by.Base.Map.{Map, insert}
use ai_inference_managed_by.Base.Result.{Result, ok, err}
use ai_inference_managed_by.Workflow.Types.{Value, Fields, text, object, field, end}
use ai_inference_managed_by.Workflow.Resolver.{get_field}
use ai_inference_managed_by.Unit.Errors.{
  GoError, wrapped, unit_error, new_error, new_domain_error, error_text,
}
use ai_inference_managed_by.Unit.Errors.Codes.{
  err_code_pipeline_not_found, err_code_not_found, err_code_already_exists, err_code_internal_error,
  err_code_invalid_input,
}
use ai_inference_managed_by.Unit.Execution.{
  Ending, done, refuse, refuse_in, input_map, get_string, success,
}
use ai_inference_managed_by.Unit.Pipeline.{
  Pipeline, PipelineRun, MemoryStore, StoreError, pipeline_not_found, pipeline_already_exists,
  run_not_found, get_pipeline, update_pipeline, delete_pipeline, create_run, get_run, update_run,
}
use ai_inference_managed_by.Unit.Pipeline.Executor.{finish_run}
use ai_inference_managed_by.Unit.Pipeline.Executor as Executor

abbrev pub err_pipeline_not_found : GoError
err_pipeline_not_found =
    unit_error (new_domain_error "pipeline" err_code_pipeline_not_found "pipeline not found")

abbrev pub err_pipeline_already_exists : GoError
err_pipeline_already_exists =
    unit_error (new_error err_code_already_exists "pipeline already exists")

abbrev pub err_run_not_found : GoError
err_run_not_found = unit_error (new_error err_code_not_found "run not found")

abbrev pub err_pipeline_running : GoError
err_pipeline_running = unit_error (new_error err_code_internal_error "pipeline is running")

abbrev pub err_run_not_cancellable : GoError
err_run_not_cancellable = unit_error (new_error err_code_internal_error "run not cancellable")

abbrev pub err_invalid_input : GoError
err_invalid_input = unit_error (new_error err_code_invalid_input "invalid input")

abbrev pub err_store_not_set : GoError
err_store_not_set = unit_error (new_error err_code_internal_error "store not set")

abbrev pub store_error : StoreError → GoError
store_error pipeline_not_found = err_pipeline_not_found
store_error pipeline_already_exists = err_pipeline_already_exists
store_error run_not_found = err_run_not_found

-- The store and the executor's runningRuns; `cancelled` holds the runs whose context was cancelled.
pub record PipelineSystem : Type 0 where
  pub store : MemoryStore
  pub running : List String
  pub cancelled : List String

-- A write through the pointer that GetPipeline gave for the id, and then UpdatePipeline.
abbrev pub write_pipeline : String → Pipeline → MemoryStore → Option StoreError × MemoryStore
write_pipeline id p s = update_pipeline p (record s { pipelines = insert id p s.pipelines })

abbrev pub object_of : Option Value → Option Fields
object_of none = none
object_of (some v) = input_map v

-- Executor.Execute, up to where it starts the goroutine.
unfoldable pub begin_run : ℤ → PipelineRun → PipelineSystem → Option StoreError × PipelineSystem
unfolding update_run
begin_run now run y =
    let started = record run { status = "running"; started_at = now; step_results = [] } in
    let r = update_run started y.store in
    elim (r.0) [
      | some e ↦ (some e, record y { store = r.1 })
      | none ↦ (
        none,
        record y {
          store = r.1;
          running = if elem y.running run.id then y.running else run.id ∷ y.running;
        },
      )
    ]

-- The goroutine calls finishRun and leaves runningRuns.
unfoldable pub end_run :
    Executor.Ending × Map Fields → ℤ → String → PipelineRun → PipelineSystem → PipelineSystem
unfolding finish_run
end_run outcome now pipeline_id run y = record y {
  store = finish_run outcome now pipeline_id run y.store;
  running = remove run.id y.running;
}

-- Executor.Cancel
unfoldable pub cancel_run : String → PipelineSystem → Bool × PipelineSystem
cancel_run id y =
    (elem y.running id, if elem y.running id then record y { cancelled = id ∷ y.cancelled } else y)

-- Executor.IsRunning
abbrev pub is_running : String → PipelineSystem → Bool
is_running id y = elem y.running id

-- RunCommand.Execute once the pipeline is found; `executing` tells whether there is an executor.
unfoldable pub launch : Bool → ℤ → PipelineRun → Pipeline → PipelineSystem → Ending × PipelineSystem
unfolding create_run update_pipeline begin_run update_run
launch executing now run p y =
    let c = create_run run y.store in
    elim (c.0) [
      | some e ↦ (refuse_in "create run" (store_error e), record y { store = c.1 })
      | none ↦
          let w =
            write_pipeline run.pipeline_id (record p { status = "running"; updated_at = now })
              c.1 in
          elim (w.0) [
            | some e ↦
                (refuse_in "update pipeline status" (store_error e), record y { store = w.1 })
            | none ↦
                let output =
                  object (field "run_id" (text run.id) (field "status" (text "running") end)) in
                let b = begin_run now run (record y { store = w.1 }) in
                if executing
                then elim (b.0) [
                  | some e ↦
                      let failing = record run {
                        status = "failed";
                        started_at = now;
                        step_results = [];
                        error = error_text (store_error e);
                      } in
                      (
                        refuse_in "execute pipeline" (store_error e),
                        record b.1 { store = (update_run failing b.1.store).1 },
                      )
                  | none ↦ (done output, b.1)
                ]
                else (done output, record y { store = w.1 })
          ]
    ]

-- The run that RunCommand.Execute makes of its input.
abbrev pub new_run : String → ℤ → Fields → PipelineRun
new_run fresh now m = record {
  id = fresh;
  pipeline_id = get_string m "pipeline_id";
  status = "pending";
  input = object_of (get_field "input" m);
  step_results = [];
  error = "";
  started_at = now;
  completed_at = none;
}

unfoldable pub execute_run : Bool → String → ℤ → Fields → PipelineSystem → Ending × PipelineSystem
unfolding launch get_pipeline
execute_run executing fresh now m y =
    let id = get_string m "pipeline_id" in
    if id == ""
    then (refuse (wrapped "pipeline_id is required" err_invalid_input), y)
    else elim (get_pipeline id y.store) [
      | err e ↦ (refuse_in (append "get pipeline " id) (store_error e), y)
      | ok p ↦ launch executing now (new_run fresh now m) p y
    ]

abbrev pub is_cancellable : String → Bool
is_cancellable status = status == "pending" || status == "running"

abbrev pub is_terminal : String → Bool
is_terminal status = status == "completed" || status == "cancelled" || status == "failed"

-- The end of CancelCommand.Execute: the pipeline is set to idle, if it is found.
unfoldable pub set_idle : ℤ → String → MemoryStore → MemoryStore
unfolding get_pipeline update_pipeline
set_idle now id s = elim (get_pipeline id s) [
  | err e ↦ s
  | ok p ↦ (write_pipeline id (record p { status = "idle"; updated_at = now }) s).1
]

-- CancelCommand.Execute once the run is found and can be cancelled.
unfoldable pub cancel_found : Bool → ℤ → PipelineRun → PipelineSystem → Ending × PipelineSystem
unfolding cancel_run update_run set_idle
cancel_found executing now run y =
    let c = if executing then cancel_run run.id y else (false, y) in
    let u = update_run (record run { status = "cancelled"; completed_at = some now }) y.store in
    if c.0
    then (done success, record c.1 { store = set_idle now run.pipeline_id c.1.store })
    else elim (u.0) [
      | some e ↦ (refuse_in "update run" (store_error e), record y { store = u.1 })
      | none ↦ (done success, record y { store = set_idle now run.pipeline_id u.1 })
    ]

unfoldable pub execute_cancel : Bool → ℤ → Fields → PipelineSystem → Ending × PipelineSystem
unfolding cancel_found get_run
execute_cancel executing now m y =
    let id = get_string m "run_id" in
    if id == ""
    then (refuse (wrapped "run_id is required" err_invalid_input), y)
    else elim (get_run id y.store) [
      | err e ↦ (refuse_in (append "get run " id) (store_error e), y)
      | ok run ↦
          let r = cancel_found executing now run y in
          if is_cancellable run.status
          then r
          else if is_terminal run.status
          then (done success, y)
          else (refuse err_run_not_cancellable, y)
    ]

unfoldable pub execute_delete : Fields → PipelineSystem → Ending × PipelineSystem
unfolding get_pipeline delete_pipeline
execute_delete m y =
    let id = get_string m "pipeline_id" in
    if id == ""
    then (refuse (wrapped "pipeline_id is required" err_invalid_input), y)
    else elim (get_pipeline id y.store) [
      | err e ↦ (refuse_in (append "get pipeline " id) (store_error e), y)
      | ok p ↦
          let r = delete_pipeline id y.store in
          if p.status == "running" then (refuse err_pipeline_running, y) else elim (r.0) [
            | some e ↦
                (refuse_in (append "delete pipeline " id) (store_error e), record y { store = r.1 })
            | none ↦ (done success, record y { store = r.1 })
          ]
    ]

-- What every Execute of the file starts with; the store is `none` when it is nil.
abbrev pub with_system :
    (Fields → PipelineSystem → Ending × PipelineSystem)
    → Value
    → Option PipelineSystem
    → Ending × Option PipelineSystem
with_system body input none = (refuse err_store_not_set, none)
with_system body input (some y) = elim (input_map input) [
  | none ↦ (refuse (wrapped "invalid input type" err_invalid_input), some y)
  | some m ↦ let r = body m y in (r.0, some r.1)
]
