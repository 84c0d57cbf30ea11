-- ===== src/Unit/Pipeline/Executor.antt =====
-- The executor of pkg/unit/pipeline/executor.go: `Execute` and the goroutine it starts.
--
-- A world `W` stands for what the step executor acts on; `done` tells from it whether the run's
-- context is done. A step can be any command (createStepExecutor in pkg/registry/register.go), also one
-- of pipelines: `execute` runs the steps in a world that holds the store. `now` is the clock, read as
-- one value for the run's start and one for its end.
pub mod Keeps
pub mod Promise
pub mod Order
use Prim.Native.String.{◌++◌ as append}
use ai_inference_managed_by.Workflow.Types.{text, boolean, scalar, field, end, Fields, Value}
use ai_inference_managed_by.Unit.Pipeline.{
  StoreError, MemoryStore, PipelineRun, update_pipeline, Pipeline, ℤ, get_pipeline, update_run,
  PipelineStep,
}
use ai_inference_managed_by.Base.{
  [], ◌∷◌, ◌==◌, true, some, if◌then◌else◌, none, Bool, Option, List, ℕ, String,
}
use ai_inference_managed_by.Base.Map.{insert, lookup, is_some, Map}
use ai_inference_managed_by.Base.Result.{err, ok, Result}

pub record StepExecutor (W : Type 0) : Type 0 where
  -- the step executor; an error is its text
  pub perform : String → Fields → W → Result String Fields × W

-- for k, v := range input { stepInput[k] = v }
unfoldable pub put_field : String → Value → Fields → Fields
put_field k v end = field k v end
put_field k v (field j w m) = if j == k then field j v m else field j w (put_field k v m)

unfoldable pub put_fields : Fields → Fields → Fields
put_fields end m = m
put_fields (field k v more) m = put_fields more (put_field k v m)

unfoldable pub step_input : Fields → Fields → Fields
step_input input own = put_fields input (put_fields own end)

-- The first dependency that has not been executed.
unfoldable pub unsatisfied : List String → Map Fields → Option String
unsatisfied [] executed = none
unsatisfied (dep ∷ deps) executed =
    let rest = unsatisfied deps executed in if is_some (lookup dep executed) then rest else some dep

-- How the goroutine ends; finishRun turns it into a status and an error text.
pub data Ending : Type 0 where
  completed cancelled : Ending
  not_satisfied : String → Ending
  step_failed : String → String → Ending

abbrev pub status_of : Ending → String
status_of completed = "completed"
status_of cancelled = "cancelled"
status_of (not_satisfied dep) = "failed"
status_of (step_failed id error) = "failed"

abbrev pub message_of : Ending → String
message_of completed = ""
message_of cancelled = ""
message_of (not_satisfied dep) = append "dependency not satisfied: " dep
message_of (step_failed id error) = append "step " (append id (append " failed: " error))

-- finishRun
unfoldable pub finish_run :
    Ending × Map Fields → ℤ → String → PipelineRun → MemoryStore → MemoryStore
unfolding update_run get_pipeline update_pipeline
finish_run (ending, results) now pipeline_id run s =
    let s' =
      (update_run
        (record run {
          status = status_of ending;
          step_results = results;
          error = if message_of ending == "" then run.error else message_of ending;
          completed_at = some now;
        })
        s).1 in
    elim (get_pipeline pipeline_id s') [
      | err x ↦ s'
      | ok p ↦ (update_pipeline (record p { status = "idle"; updated_at = now }) s').1
    ]

module _ {W : Type 0} (e : Option (StepExecutor W)) (done : W → Bool) where
  -- `none` for a nil step executor
  unfoldable pub perform_step : PipelineStep → Fields → W → Result String Fields × W
  perform_step step input w = elim e [
    | none ↦ (ok (field "mock" (scalar (boolean true)) (field "step" (text step.id) end)), w)
    | some x ↦ x.perform step.type input w
  ]

  -- The loop over the steps: how it ends and the results so far.
  unfoldable pub run_steps : Fields → List PipelineStep → Map Fields → W → (Ending × Map Fields) × W
  unfolding perform_step step_input unsatisfied
  run_steps input [] executed w = ((completed, executed), w)
  run_steps input (step ∷ steps) executed w =
      if done w then ((cancelled, executed), w) else elim (unsatisfied step.depends_on executed) [
        | some dep ↦ ((not_satisfied dep, executed), w)
        | none ↦
            let r = perform_step step (step_input input step.input) w in
            elim (r.0) [
              | err error ↦ ((step_failed step.id error, executed), r.1)
              | ok output ↦ run_steps input steps (insert step.id output executed) r.1
            ]
      ]

module _ {W : Type 0} (e : Option (StepExecutor (MemoryStore × W)))
    (done : MemoryStore × W → Bool) where
  unfoldable pub execute :
      ℤ
      → ℤ
      → Pipeline
      → PipelineRun
      → Fields
      → MemoryStore
      → W
      → (Option StoreError × MemoryStore) × W
  unfolding update_run run_steps finish_run
  execute start stop pipeline run input s w =
      let started = record run { status = "running"; started_at = start; step_results = [] } in
      let first = update_run started s in
      elim (first.0) [
        | some error ↦ ((some error, first.1), w)
        | none ↦
            let r = run_steps e done input pipeline.steps [] (first.1, w) in
            ((none, finish_run r.0 stop pipeline.id started r.1.0), r.1.1)
      ]
