-- ===== src/Unit/Pipeline/Executor/Keeps.antt =====
-- What the steps of a run (pkg/unit/pipeline/executor.go) leave in the store.
use ai_inference_managed_by.Unit.Pipeline.Executor.{
  step_input, perform_step, unsatisfied, StepExecutor, run_steps,
}
use ai_inference_managed_by.Base.{
  Option-cases, Bool-cases, inr, inl, true, Bool, String, List, [], ◌∷◌, Option, none, some, ◌≡◌,
}
use ai_inference_managed_by.Unit.Pipeline.{Pipeline, PipelineStep, Fields, MemoryStore}
use ai_inference_managed_by.Base.Result.{Result-cases}
use ai_inference_managed_by.Base.Map.{insert, lookup, is_some, Map}

-- What the steps do not take away: what they leave has it if what they find has it.
abbrev pub KeepsIn : {W : Type 0} → (W → Type 0) → Option (StepExecutor W) → Type 0
KeepsIn P none = Unit
KeepsIn P (some x) = (type : String) (input : Fields) (w : _) → P w → P (x.perform type input w).1

module _ {W : Type 0} (P : W → Type 0) (done : W → Bool) where
  perform_step-keeps :
      (e : Option (StepExecutor W)) (step : PipelineStep) (input : Fields) (w : W)
      → KeepsIn P e
      → P w
      → P (perform_step e done step input w).1
  unfolding perform_step
  perform_step-keeps none step input w keeps h = h
  perform_step-keeps (some x) step input w keeps h = keeps step.type input w h

  pub run_steps-KeepsIn :
      (e : Option (StepExecutor W)) (input : Fields) (steps : List PipelineStep) (m : Map Fields)
      (w : W)
      → KeepsIn P e
      → P w
      → P (run_steps e done input steps m w).1
  unfolding run_steps
  run_steps-KeepsIn e input [] m w keeps h = h
  run_steps-KeepsIn e input (step ∷ steps) m w keeps h = elim (Bool-cases (done w)) [
    | inl stop ↦ rw stop h
    | inr go ↦ elim (Option-cases (unsatisfied step.depends_on m)) [
      | inr (dep, eq) ↦ rw (go, eq) h
      | inl eq ↦
          let r = perform_step e done step (step_input input step.input) w in
          let after = perform_step-keeps e step (step_input input step.input) w keeps h in
          elim (Result-cases r.0) [
            | inl (out, performed) ↦
                rw (go, eq, performed)
                  (run_steps-KeepsIn e input steps (insert step.id out m) r.1 keeps after)
            | inr (x, failed) ↦ rw (go, eq, failed) after
          ]
    ]
  ]

-- The store has the run, and has the pipeline, if at all, under its own id.
abbrev pub HasRun : {W : Type 0} → String → String → MemoryStore × W → Type 0
HasRun run id (s, w) =
    (is_some (lookup run s.runs) ≡ true)
    × ((q : Pipeline) → lookup id s.pipelines ≡ some q → q.id ≡ id)
