-- ===== src/Workflow/Store.antt =====
-- InMemoryWorkflowStore of pkg/workflow/store.go. Each of the two mutexes makes a method one step; a
-- nil pointer is `none`. The store never fails but for a nil definition.
pub mod Laws
use ai_inference_managed_by.Base.{
  ℕ, zero, suc, String, Bool, ◌||◌, List, [], ◌∷◌, Option, none, some, ◌==◌, if◌then◌else◌, ltb,
  length, take,
}
use ai_inference_managed_by.Base.Int.{ℤ, pos, negsuc}
use ai_inference_managed_by.Base.Map.{Map, lookup, insert, delete, values}
use ai_inference_managed_by.Workflow.Types.{WorkflowDef}
use ai_inference_managed_by.Workflow.Dsl.{DslError, workflow_name_empty}
use ai_inference_managed_by.Workflow.Engine.{ExecutionResult}

pub record InMemoryWorkflowStore : Type 0 where
  pub workflows : Map WorkflowDef
  pub executions : Map ExecutionResult

abbrev pub new_workflow_store : InMemoryWorkflowStore
new_workflow_store = record { workflows = []; executions = [] }

unfoldable pub save_workflow :
    Option WorkflowDef → InMemoryWorkflowStore → Option DslError × InMemoryWorkflowStore
save_workflow none s = (some workflow_name_empty, s)
save_workflow (some def) s = (none, record s { workflows = insert def.name def s.workflows })

-- A missing workflow is nil without an error.
unfoldable pub get_workflow : String → InMemoryWorkflowStore → Option WorkflowDef
get_workflow name s = lookup name s.workflows

abbrev pub list_workflows : InMemoryWorkflowStore → List WorkflowDef
list_workflows s = values s.workflows

unfoldable pub delete_workflow : String → InMemoryWorkflowStore → InMemoryWorkflowStore
delete_workflow name s = record s { workflows = delete name s.workflows }

unfoldable pub save_execution :
    Option ExecutionResult → InMemoryWorkflowStore → InMemoryWorkflowStore
save_execution none s = s
save_execution (some r) s = record s { executions = insert r.run_id r s.executions }

unfoldable pub get_execution : String → InMemoryWorkflowStore → Option ExecutionResult
get_execution run_id s = lookup run_id s.executions

-- The loop of ListExecutions.
unfoldable pub select_executions : String → List ExecutionResult → List ExecutionResult
select_executions name [] = []
select_executions name (r ∷ rs) =
    let rest = select_executions name rs in
    if name == "" || r.workflow_id == name then r ∷ rest else rest

-- if limit > 0 && len(result) > limit { result = result[:limit] }
abbrev pub limited : ℤ → List ExecutionResult → List ExecutionResult
limited (negsuc n) rs = rs
limited (pos zero) rs = rs
limited (pos (suc n)) rs = if ltb (suc n) (length rs) then take (suc n) rs else rs

unfoldable pub list_executions : String → ℤ → InMemoryWorkflowStore → List ExecutionResult
unfolding select_executions
list_executions name limit s = limited limit (select_executions name (values s.executions))

-- What a list of calls of SaveExecution makes of the store.
unfoldable pub save_all : List ExecutionResult → InMemoryWorkflowStore → InMemoryWorkflowStore
unfolding save_execution
save_all [] s = s
save_all (r ∷ rs) s = save_all rs (save_execution (some r) s)
