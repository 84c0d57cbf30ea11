-- ===== src/Unit/Examples/Commands.antt =====
-- Slots, pipelines and errors on which the theorems about the commands of pkg/unit are applied.
use ai_inference_managed_by.Base.{String, true, ◌≡◌, refl, List, [], ◌∷◌, some, elem, eqb}
use ai_inference_managed_by.Base.Int.{pos}
use ai_inference_managed_by.Base.Map.{insert, lookup}
use ai_inference_managed_by.Base.Result.{ok, err}
use ai_inference_managed_by.Workflow.Types.{
  Value, Fields, text, scalar, int, field, end, object, array, nil, cons,
}
use ai_inference_managed_by.Workflow.Resolver.{get_field}
use ai_inference_managed_by.Unit.Errors.{
  GoError, wrapped, unit_error, new_error, as_unit_error, is_not_found, is_already_exists,
  error_to_http_status,
}
use ai_inference_managed_by.Unit.Errors.Status.{status-tests}
use ai_inference_managed_by.Unit.Execution.{Ending, done, success}
use ai_inference_managed_by.Unit.Resource.{ResourceSlot, SlotStore, new_slot_store}
use ai_inference_managed_by.Unit.Resource.Refinement.{
  SlotOp, create, update, remove, promises, apply_ops, view, apply_ops-refines,
}
use ai_inference_managed_by.Unit.Resource.Commands.{Provider, change_by_id}
use ai_inference_managed_by.Unit.Resource.Commands.Promise.{Changed, change_by_id-outcome, IsValid}
use ai_inference_managed_by.Unit.Pipeline.{
  MemoryStore, pipeline_not_found, get_pipeline, get_run, create_pipeline,
}
use ai_inference_managed_by.Unit.Pipeline.Create.{
  execute_create, parse_steps, check_steps, store_pipeline,
}
use ai_inference_managed_by.Unit.Pipeline.Create.Promise.{Created, execute_create-Created}
use ai_inference_managed_by.Unit.Pipeline.Steps.{
  validate_steps, visit_all, visit, visit_steps, visit_deps, check_ids, check_all_deps, check_deps,
}
use ai_inference_managed_by.Unit.Pipeline.Executor as Executor
use ai_inference_managed_by.Unit.Pipeline.Executor.{StepExecutor, run_steps}
use ai_inference_managed_by.Unit.Pipeline.Executor.Order.{IsOrdered, run_steps-IsOrdered}
use ai_inference_managed_by.Unit.Pipeline.Commands.{
  PipelineSystem, execute_run, execute_delete, end_run, new_run,
}
use ai_inference_managed_by.Unit.Pipeline.Commands.Promise.{begun}
use ai_inference_managed_by.Unit.Pipeline.Commands.Races.{delete_during_run}
use ai_inference_managed_by.Unit.Examples.{pipeline, pipeline_store, echo, never}

abbrev lost : GoError
lost = wrapped "get slot s" (unit_error (new_error "00402" "slot not found"))

status-tests_example : (is_not_found lost ≡ eqb 404 404) × (is_already_exists lost ≡ eqb 404 409)
unfolding as_unit_error error_to_http_status
status-tests_example = status-tests lost (new_error "00402" "slot not found") refl

abbrev slot : ResourceSlot
slot = record {
  id = "s";
  name = "s";
  type = "system_service";
  memory_limit = 1024;
  priority = pos 5;
  status = "active";
  created_at = pos 0;
  updated_at = pos 0;
}

abbrev slot_ops : List SlotOp
slot_ops = create slot ∷ create slot ∷ remove "t" ∷ update slot ∷ remove "s" ∷ []

apply_ops-refines_example :
    promises slot_ops (view new_slot_store)
    ≡ ((apply_ops slot_ops new_slot_store).0, view (apply_ops slot_ops new_slot_store).1)
apply_ops-refines_example = apply_ops-refines slot_ops new_slot_store

abbrev allocation : Fields
allocation =
    field "name" (text "llama")
      (field "type" (text "inference_native") (field "memory_bytes" (scalar (int (pos 16))) end))

-- A provider that has sixteen bytes.
abbrev small : Provider
small memory priority = ok (eqb memory 16, "")

abbrev slots : SlotStore
slots = record { slots = ("s", slot) ∷ [] }

-- A new limit and a status that is not valid.
abbrev bad_update : Fields
bad_update =
    field "slot_id" (text "s")
      (field "memory_limit" (scalar (int (pos 2048))) (field "status" (text "paused") end))

change_by_id-outcome_example :
    Changed (pos 9) bad_update slot slots (change_by_id (pos 9) bad_update slots)
unfolding get_field lookup
change_by_id-outcome_example = change_by_id-outcome (pos 9) bad_update slot slots refl refl refl

new-IsValid : IsValid new_slot_store
unfolding lookup
new-IsValid k found h = absurd (cc)

completes : (run_steps (some echo) never end pipeline.steps [] 0).0.0 ≡ Executor.completed
unfolding run_steps Executor.unsatisfied Executor.perform_step lookup insert
completes = refl

run_steps-IsOrdered_example : IsOrdered [] pipeline.steps
run_steps-IsOrdered_example = run_steps-IsOrdered (some echo) never end pipeline.steps 0 completes

abbrev system : PipelineSystem
system = record { store = pipeline_store; running = []; cancelled = [] }

abbrev cancel_input : Fields
cancel_input = field "run_id" (text "r") end

abbrev run_input : Fields
run_input = field "pipeline_id" (text "p") end

delete_during_run_example :
    let y1 = (execute_run true "r1" (pos 1) run_input system).1 in
    let y2 = (execute_run true "r2" (pos 2) run_input y1).1 in
    let y3 =
      end_run
        (Executor.completed, [])
        (pos 3)
        "p"
        (begun (pos 1) (new_run "r1" (pos 1) run_input))
        y2 in
    let r = execute_delete run_input y3 in
    (r.0 ≡ done success)
    × (get_pipeline "p" r.1.store ≡ err pipeline_not_found)
    × (get_run "r2" r.1.store ≡ ok (begun (pos 2) (new_run "r2" (pos 2) run_input)))
    × (elem r.1.running "r2" ≡ true)
unfolding get_field lookup
delete_during_run_example =
    delete_during_run "r1" "r2" (pos 1) (pos 2) (pos 3) run_input pipeline system
      (Executor.completed, []) refl refl refl refl refl refl

abbrev creation : Fields
creation = field "name" (text "chat") (
    field "steps"
      (array (
        cons
          (object (
            field "id" (text "a")
              (field "name" (text "a") (field "type" (text "inference.chat") end))))
          nil))
      end)

abbrev plain : Value → String
plain (text t) = t
plain _ = "?"

execute_create-Created_example :
    Created "pipe-1" pipeline_store
      (execute_create plain (λ issues. "issues") "pipe-1" (pos 4) creation pipeline_store)
execute_create-Created_example =
    execute_create-Created plain (λ issues. "issues") "pipe-1" (pos 4) pipeline_store creation

creation-accepted :
    (r : Ending × MemoryStore) × (execute_create plain
        (λ issues. "issues")
        "pipe-1"
        (pos 4)
        creation
        pipeline_store
      ≡ some r)
    × (r.0 ≡ done (object (field "pipeline_id" (text "pipe-1") end)))
unfolding execute_create get_field parse_steps check_steps validate_steps visit_all visit
    visit_steps visit_deps check_ids check_all_deps check_deps store_pipeline create_pipeline lookup
    insert
creation-accepted = (_, refl, refl)
