-- ===== src/Unit/Pipeline/Executor/Order.antt =====
-- The executor (pkg/unit/pipeline/executor.go) takes the steps in the order of the list: a run can only
-- complete when the list has each step after those it depends on.
use ai_inference_managed_by.Base.{
  String, Bool, true, ◌≡◌, refl, sym, ap, ◌∙◌, List, [], ◌∷◌, elem, All, All-imp, arith,
}
use ai_inference_managed_by.Base.Map.{Map, insert, lookup, is_some, lookup-insert}
use ai_inference_managed_by.Workflow.Types.{Fields}
use ai_inference_managed_by.Unit.Pipeline.{PipelineStep}
use ai_inference_managed_by.Unit.Pipeline.Executor.{StepExecutor, run_steps, completed}
use ai_inference_managed_by.Unit.Pipeline.Executor.Promise.{unsatisfied-AllIn, run_steps-advances}
use mathlib.Core.Option.{Option}

-- Each step comes after the steps it depends on, of which those in the list of names are done.
abbrev pub IsOrdered : List String → List PipelineStep → Type 0
IsOrdered seen [] = Unit
IsOrdered seen (step ∷ steps) =
    All (λ d. elem seen d ≡ true) step.depends_on × IsOrdered (step.id ∷ seen) steps

module _ {W : Type 0} (e : Option (StepExecutor W)) (done : W → Bool) where
  run_steps-seen :
      (input : Fields) (steps : List PipelineStep) (results : Map Fields) (seen : List String)
      (w : W)
      → ((k : String) → is_some (lookup k results) ≡ elem seen k)
      → (run_steps e done input steps results w).0.0 ≡ completed
      → IsOrdered seen steps
  run_steps-seen input [] results seen w same h = tt
  run_steps-seen input (step ∷ steps) results seen w same h =
      let (out, w', deps, eq) = run_steps-advances e done input step steps results w h in
      (
        All-imp _ _ step.depends_on (λ k found. sym (same k) ∙ found)
            (unsatisfied-AllIn step.depends_on results deps),
        run_steps-seen input steps (insert step.id out results) (step.id ∷ seen) w'
            (λ k. ground (arith, lookup-insert step.id k out results, same k))
            (ap (λ r. r.0.0) (sym eq) ∙ h),
      )

  -- With any step executor, input and world: a run that completes had a list of steps in which each
  -- step comes after the steps it depends on.
  pub run_steps-IsOrdered :
      (input : Fields) (steps : List PipelineStep) (w : W)
      → (run_steps e done input steps [] w).0.0 ≡ completed
      → IsOrdered [] steps
  unfolding lookup
  run_steps-IsOrdered input steps w h = run_steps-seen input steps [] [] w (λ k. refl) h
