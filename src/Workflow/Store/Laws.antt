-- ===== src/Workflow/Store/Laws.antt =====
-- What the workflow store (pkg/workflow/store.go) has after executions are saved.
use ai_inference_managed_by.Base.{String, ◌≡◌, refl, subst, sym, List, [], ◌∷◌, ◌++◌, some}
use ai_inference_managed_by.Base.Map.{lookup-insert_self}
use ai_inference_managed_by.Workflow.Engine.{ExecutionResult}
use ai_inference_managed_by.Workflow.Store.{
  InMemoryWorkflowStore, get_execution, save_execution, save_all,
}

save_all-append :
    (xs ys : List ExecutionResult) (s : InMemoryWorkflowStore)
    → save_all (xs ++ ys) s ≡ save_all ys (save_all xs s)
unfolding save_all
save_all-append [] ys s = refl
save_all-append (x ∷ xs) ys s = save_all-append xs ys (save_execution (some x) s)

-- What is saved last under an id is what the store gives for it.
pub get_execution-save_all :
    (xs : List ExecutionResult) (r : ExecutionResult) (s : InMemoryWorkflowStore)
    → get_execution r.run_id (save_all (xs ++ r ∷ []) s) ≡ some r
unfolding get_execution save_all save_execution
get_execution-save_all xs r s =
    rw (save_all-append xs (r ∷ []) s) (lookup-insert_self r.run_id r (save_all xs s).executions)

pub get_execution-saved :
    (rs : List ExecutionResult) (r : ExecutionResult) (run_id : String) (s : InMemoryWorkflowStore)
    → rs ≡ r ∷ []
    → r.run_id ≡ run_id
    → get_execution run_id (save_all rs s) ≡ some r
get_execution-saved rs r run_id s saved id =
    subst (λ k. get_execution k (save_all rs s) ≡ some r) id
      (subst (λ l. get_execution r.run_id (save_all l s) ≡ some r) (sym saved)
        (get_execution-save_all [] r s))
