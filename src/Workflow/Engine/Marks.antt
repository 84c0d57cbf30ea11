-- ===== src/Workflow/Engine/Marks.antt =====
-- The marks that WorkflowEngine.Execute (pkg/workflow/engine.go) leaves on its result: the run id and
-- the status of a failed run.
use ai_inference_managed_by.Workflow.Engine.{
  resolve_output, ErrorText, ExecutionResult, Outcome, finished, Effects, WorkflowEngine,
  execute_step, execute_steps, finish_output,
}
use ai_inference_managed_by.Base.{◌≡◌, refl, String, List, [], ◌∷◌, Option, none, some, inl, inr}
use ai_inference_managed_by.Base.Result.{Result-cases}
use ai_inference_managed_by.Base.Map.{insert}
use ai_inference_managed_by.Workflow.Types.{
  Value, WorkflowStep, WorkflowDef, ExecutionContext, failed,
}
use ai_inference_managed_by.Workflow.Engine.Run.{after_step_ind}

module _ (W : Type 0) (e : WorkflowEngine W) (format : Value → String)
    (show : ErrorText → Value) where
  -- A finished run has its id, and is marked as failed if it comes with an error.
  abbrev pub Marked : String → Outcome × Effects W → Type 0
  Marked id (finished r none, f) = r.run_id ≡ id
  Marked id (finished r (some x), f) = (r.run_id ≡ id) × (r.status ≡ failed)
  Marked id (_, f) = Unit

  Marked-failed :
      (id : String) (r : ExecutionResult) (error : Option ErrorText) (f : Effects W)
      → r.run_id ≡ id
      → r.status ≡ failed
      → Marked id (finished r error, f)
  Marked-failed id r none f h k = h
  Marked-failed id r (some x) f h k = (h, k)

  finish_output-Marked :
      (def : WorkflowDef) (r : ExecutionResult) (ctx : ExecutionContext) (f : Effects W)
      → Marked r.run_id (finish_output W e format show def r ctx f)
  unfolding finish_output
  finish_output-Marked def r ctx f = elim (Result-cases (resolve_output ctx format def.output)) [
    | inl (m, run) ↦ rw (run, finish_output) refl
    | inr (x, run) ↦ rw (run, finish_output) (refl, refl)
  ]

  pub execute_steps-Marked :
      (def : WorkflowDef) (ss : List (Option WorkflowStep)) (r : ExecutionResult)
      (ctx : ExecutionContext) (f : Effects W)
      → Marked r.run_id (execute_steps W e format show def ss r ctx f)
  unfolding execute_steps
  execute_steps-Marked def [] r ctx f = finish_output-Marked def r ctx f
  execute_steps-Marked def (none ∷ ss) r ctx f = tt
  execute_steps-Marked def (some s ∷ ss) r ctx f =
      let (o, w) = execute_step W e format show ctx s f.world in
      after_step_ind W e format show (execute_steps W e format show def ss) s r ctx
        (record f { world = w }) (Marked r.run_id) o (λ p. tt)
        (λ sr p b.
          Marked-failed r.run_id
            (record r {
              step_results = insert s.id sr r.step_results;
              status = failed;
              error = sr.error;
            })
            sr.error _ refl refl)
        (λ sr p b. execute_steps-Marked def ss _ _ (record f { world = w }))
