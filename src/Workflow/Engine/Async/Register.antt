-- ===== src/Workflow/Engine/Async/Register.antt =====
-- RegisterWorkflow and GetWorkflow of pkg/workflow/engine.go over the store of pkg/workflow/store.go.
use ai_inference_managed_by.Base.{String, ◌≡◌, none, some, ◌==◌, if◌then◌else◌}
use ai_inference_managed_by.Base.Map.{insert, lookup-insert}
use ai_inference_managed_by.Base.Result.{ok}
use ai_inference_managed_by.Workflow.Types.{WorkflowDef}
use ai_inference_managed_by.Workflow.Validator.WellFormed.{IsAccepted}
use ai_inference_managed_by.Workflow.Store.{InMemoryWorkflowStore, get_workflow, save_workflow}
use ai_inference_managed_by.Workflow.Engine.Async.{register_workflow}

-- A definition that is accepted is registered, and GetWorkflow then gives it under its name and every
-- other name as before.
pub register_workflow-get :
    (def : WorkflowDef) (s : InMemoryWorkflowStore)
    → IsAccepted def
    → (t : InMemoryWorkflowStore) × (register_workflow def s ≡ some (ok none, t))
      × ((k : String) → get_workflow k t ≡ (if def.name == k then some def else get_workflow k s))
unfolding register_workflow get_workflow save_workflow
register_workflow-get def s (v, run, good) = (
  record s { workflows = insert def.name def s.workflows },
  rw (run, good, register_workflow),
  λ k. lookup-insert def.name k def s.workflows,
)
