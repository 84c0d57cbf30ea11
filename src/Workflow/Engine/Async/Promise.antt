-- ===== src/Workflow/Engine/Async/Promise.antt =====
-- What ExecuteAsync (pkg/workflow/engine.go) promises about the run id that it returns, with the
-- store of pkg/workflow/store.go behind SaveExecution.
use ai_inference_managed_by.Base.{
  ◌<◌, ◌≡◌, ◌≢◌, ◌⊎◌, inl, inr, refl, sym, ap, ◌∙◌, subst, append_assoc, String, [], ◌∷◌, ◌++◌,
  none, some, All,
}
use ai_inference_managed_by.Base.Result.{ok}
use ai_inference_managed_by.Workflow.Types.{Value, Fields, WorkflowDef, completed, failed}
use ai_inference_managed_by.Workflow.Validator.WellFormed.{IsAccepted}
use ai_inference_managed_by.Workflow.Sort.{RangeOrder}
use ai_inference_managed_by.Workflow.Store.Laws.{get_execution-save_all}
use ai_inference_managed_by.Workflow.Store.{InMemoryWorkflowStore, get_execution, save_all}
use ai_inference_managed_by.Workflow.Engine.{
  ErrorText, ExecutionResult, Outcome, invalid, unsorted, finished, crashed, no_fuel, Effects,
  WorkflowEngine, max_attempts, execute,
}
use ai_inference_managed_by.Workflow.Engine.Promise.{
  execute-completed, execute-Saved, execute-ne-crashed,
}
use ai_inference_managed_by.Workflow.Engine.Run.{Saved}
use ai_inference_managed_by.Workflow.Engine.Async.{
  bare_result, final_result, save_final, run_async, execute_async,
}

-- A run has ended.
abbrev pub IsEnded : ExecutionResult → Type 0
IsEnded r = (r.status ≡ completed) ⊎ (r.status ≡ failed)

module _ (W : Type 0) (e : WorkflowEngine W) (format : Value → String) (show : ErrorText → Value)
    (range : RangeOrder) (run_id inner_id : String) (def : WorkflowDef) (input : Fields)
    (f : Effects W) where
  abbrev Ends : Effects W → Type 0
  Ends f' =
      (inner : ExecutionResult) × (final : ExecutionResult) × (f'.saved
        ≡ f.saved ++ inner ∷ final ∷ [])
      × (final.run_id ≡ run_id)
      × IsEnded final

  saved_twice :
      (inner final : ExecutionResult) (f' : Effects W)
      → f'.saved ≡ f.saved ++ inner ∷ []
      → f'.saved ++ final ∷ [] ≡ f.saved ++ inner ∷ final ∷ []
  saved_twice inner final f' h =
      ap (λ rs. rs ++ final ∷ []) h ∙ append_assoc f.saved (inner ∷ []) (final ∷ [])

  save_final-Ends :
      (x : Outcome × Effects W)
      → execute W e format show range inner_id def input f ≡ x
      → IsAccepted def
      → Saved W e format show f x
      → x.0 ≢ crashed
      → Ends (save_final W e format show range (final_result def run_id x.0) x.1)
  unfolding save_final final_result
  save_final-Ends (finished r none, f') eq a h ne =
      let final : ExecutionResult = record (bare_result def run_id) {
        status = r.status;
        output = r.output;
        step_results = r.step_results;
      } in
      let done = execute-completed W e format show range inner_id def input f a r f' eq in
      (r, final, saved_twice r final f' h, refl, inl done.0)
  save_final-Ends (finished r (some error), f') eq a h ne =
      let final : ExecutionResult = record (bare_result def run_id) {
        status = failed;
        error = some error;
      } in
      (r, final, saved_twice r final f' h, refl, inr refl)
  save_final-Ends (crashed, f') eq a h ne = absurd (ne refl)
  save_final-Ends (invalid errors, f') eq a h ne = elim h [ ]
  save_final-Ends (unsorted, f') eq a h ne = elim h [ ]
  save_final-Ends (no_fuel, f') eq a h ne = elim h [ ]

  -- On an accepted definition whose retry settings all allow an attempt, `execute_async` gives the
  -- caller a running result with the run id, and in the end the store behind SaveExecution has a
  -- result under this id, whose status is completed or failed.
  pub execute_async-IsEnded :
      IsAccepted def
      → All (λ s. 0 < max_attempts W e s) def.steps
      → (store : InMemoryWorkflowStore)
      → (f' : Effects W) × (final : ExecutionResult) × (execute_async W e format show range run_id
            inner_id def input f
          ≡ some (ok (bare_result def run_id), f'))
        × (get_execution run_id (save_all f'.saved store) ≡ some final)
        × IsEnded final
  unfolding execute_async run_async
  execute_async-IsEnded (v, run, good) tries store =
      let a : IsAccepted def = (v, run, good) in
      let x = execute W e format show range inner_id def input f in
      let (inner, final, saved, id, ended) =
        save_final-Ends x refl a (execute-Saved W e format show range inner_id def input f a)
          (execute-ne-crashed W e format show range inner_id def input f a tries) in
      (
        run_async W e format show range run_id inner_id def input f,
        final,
        rw (run, good, execute_async),
        subst
            (λ k.
              get_execution k
                (save_all (run_async W e format show range run_id inner_id def input f).saved store)
              ≡ some final)
            id
            (subst (λ rs. get_execution final.run_id (save_all rs store) ≡ some final)
              (append_assoc f.saved (inner ∷ []) (final ∷ []) ∙ sym saved)
              (get_execution-save_all (f.saved ++ inner ∷ []) final store)),
        ended,
      )
