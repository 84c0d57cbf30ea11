-- ===== src/Workflow/Engine/Promise.antt =====
-- The promises of WorkflowEngine.Execute (pkg/workflow/engine.go) to its callers.
use ai_inference_managed_by.Base.{
  ap, subst, inr, inl, Bool-cases, ◌≡◌, ◌≢◌, ◌<◌, refl, String, true, false, List, [], ◌∷◌, ◌++◌,
  Option, none, some, All, map,
}
use ai_inference_managed_by.Workflow.Validator.WellFormed.{validate_total, IsAccepted}
use ai_inference_managed_by.Workflow.Engine.{
  fields_of, end, ErrorText, ExecutionResult, Outcome, invalid, unsorted, finished, crashed,
  no_fuel, Effects, WorkflowEngine, max_attempts, execute_steps, execute,
}
use mathlib.Core.List.{Perm}
use mathlib.Core.List.Perm
use native.Mathlib.Bridge.{le_prop}
use ai_inference_managed_by.Base.Perm.{All-of_perm}
use ai_inference_managed_by.Workflow.Types.{
  Value, Fields, WorkflowStep, WorkflowDef, ExecutionContext, completed, running,
}
use ai_inference_managed_by.Workflow.Sort.{RangeOrder}
use ai_inference_managed_by.Workflow.Validator.{ValidationResult, validate}
use ai_inference_managed_by.Workflow.Engine.Marks.{Marked, execute_steps-Marked}
use ai_inference_managed_by.Workflow.Engine.Run.{
  sort_accepted, completed_in, Saved, Tries, Through, Listed, execute_steps-Saved,
  execute_steps-Through, execute_steps-ne-crashed,
}

module _ (W : Type 0) (e : WorkflowEngine W) (format : Value → String) (show : ErrorText → Value)
    (range : RangeOrder) (run_id : String) (def : WorkflowDef) (input : Fields)
    (f : Effects W) where
  abbrev first_result : ExecutionResult
  first_result = record {
    workflow_id = def.name;
    run_id = run_id;
    status = running;
    step_results = [];
    output = end;
    error = none;
  }

  abbrev first_context : ExecutionContext
  first_context = record { input = input; config = fields_of def.config; steps = [] }

  -- An accepted definition is run along a list of all its steps.
  execute-accepted :
      IsAccepted def
      → (sorted : List (Option WorkflowStep)) × Perm sorted (map some def.steps)
        × (execute W e format show range run_id def input f
            ≡ execute_steps W e format show def sorted first_result first_context f)
  unfolding execute
  execute-accepted (v, run, good) =
      let (sorted, sort, perm, ordered) = sort_accepted range def (v, run, good) in
      (sorted, perm, rw (run, good, sort, execute))

  -- The run of an accepted definition is finished and saved, unless it crashes.
  pub execute-Saved :
      IsAccepted def → Saved W e format show f (execute W e format show range run_id def input f)
  execute-Saved a =
      let (sorted, perm, same) = execute-accepted a in
      rw same (execute_steps-Saved W e format show def sorted first_result first_context f)

  -- Its result has the run id, and the status `failed` if it comes with an error.
  pub execute-Marked :
      IsAccepted def
      → Marked W e format show run_id (execute W e format show range run_id def input f)
  execute-Marked a =
      let (sorted, perm, same) = execute-accepted a in
      rw same (execute_steps-Marked W e format show def sorted first_result first_context f)

  execute-rejected :
      (v : ValidationResult)
      → validate def ≡ some v
      → v.valid ≡ false
      → execute W e format show range run_id def input f ≡ (invalid v.errors, f)
  unfolding execute
  execute-rejected v run bad = rw (run, bad, execute)

  abbrev IsComplete : Outcome × Effects W → Type 0
  IsComplete (finished r none, f') =
      (r.status ≡ completed) × All (λ s. completed_in r.step_results s.id ≡ true) def.steps
  IsComplete (_, f') = Unit

  execute-IsComplete :
      IsAccepted def → IsComplete (execute W e format show range run_id def input f)
  execute-IsComplete a =
      let (sorted, perm, same) = execute-accepted a in
      rw same (
        through sorted perm _
          (execute_steps-Through W e format show def sorted first_result first_context f))
    where
      Listed_prop :
          (r : ExecutionResult) (x : Option WorkflowStep) → IsProp (Listed W e format show r x)
      Listed_prop r none = hlevel
      Listed_prop r (some s) = hlevel

      unlist :
          (r : ExecutionResult) (ss : List WorkflowStep)
          → All (Listed W e format show r) (map some ss)
          → All (λ s. completed_in r.step_results s.id ≡ true) ss
      unlist r [] h = tt
      unlist r (s ∷ ss) h = (h.0, unlist r ss h.1)

      through :
          (sorted : List (Option WorkflowStep))
          → Perm sorted (map some def.steps)
          → (x : Outcome × Effects W) → Through W e format show sorted first_result x
          → IsComplete x
      through sorted perm (finished r none, f') (status, kept, all) = (
        status,
        unlist r def.steps (
            All-of_perm (Listed W e format show r) (Listed_prop r) (map some def.steps) sorted
              (Perm.symm perm) all),
      )
      through sorted perm (finished r (some y), f') h = tt
      through sorted perm (_, f') h = tt

  -- When the run of an accepted definition returns without an error, its status is `completed`, and
  -- every step has a result whose status is `completed`.
  pub execute-completed :
      IsAccepted def
      → (r : ExecutionResult) (f' : Effects W)
      → execute W e format show range run_id def input f ≡ (finished r none, f')
      → (r.status ≡ completed) × All (λ s. completed_in r.step_results s.id ≡ true) def.steps
  execute-completed a r f' h = subst IsComplete h (execute-IsComplete a)

  pub execute-ne-crashed :
      IsAccepted def
      → All (λ s. 0 < max_attempts W e s) def.steps
      → (execute W e format show range run_id def input f).0 ≢ crashed
  execute-ne-crashed a tries =
      let (sorted, perm, same) = execute-accepted a in
      rw same (
        execute_steps-ne-crashed W e format show def sorted first_result first_context f (
          All-of_perm (Tries W e format show) Tries_prop sorted (map some def.steps) perm
            (enlist def.steps tries)))
    where
      Tries_prop : (x : Option WorkflowStep) → IsProp (Tries W e format show x)
      Tries_prop none = hlevel
      Tries_prop (some s) = le_prop

      enlist :
          (ss : List WorkflowStep)
          → All (λ s. 0 < max_attempts W e s) ss
          → All (Tries W e format show) (map some ss)
      enlist [] h = tt
      enlist (s ∷ ss) h = (h.0, enlist ss h.1)

  -- The verdict on the definition and what has been done by then. A call whose definition is accepted
  -- may crash only if some step's retry settings allow no attempt.
  abbrev pub IsRecorded : Outcome × Effects W → Type 0
  IsRecorded (finished r error, f') = IsAccepted def × (f'.saved ≡ f.saved ++ r ∷ [])
  IsRecorded (crashed, f') =
      IsAccepted def × (f'.saved ≡ f.saved) × ¬ All (λ s. 0 < max_attempts W e s) def.steps
  IsRecorded (invalid errors, f') =
      ((v : ValidationResult) × (validate def ≡ some v) × (v.valid ≡ false) × (errors ≡ v.errors))
      × (f' ≡ f)
  IsRecorded (unsorted, f') = ⊥
  IsRecorded (no_fuel, f') = ⊥

  -- Whatever the definition, `execute` ends in one of three ways. The definition is rejected by
  -- `validate`, its errors are returned and nothing is done; or it is accepted and the run is finished
  -- and saved exactly once; or it is accepted and a nil pointer is dereferenced, nothing is saved, and
  -- some step's retry settings allow no attempt. A validated definition always sorts.
  pub execute-IsRecorded : IsRecorded (execute W e format show range run_id def input f)
  execute-IsRecorded = judge (validate_total def)
    where
      loop :
          IsAccepted def
          → (x : Outcome × Effects W) → execute W e format show range run_id def input f ≡ x
          → Saved W e format show f x
          → IsRecorded x
      loop a (finished r error, f') same h = (a, h)
      loop a (crashed, f') same h = (a, h, λ tries. execute-ne-crashed a tries (ap (λ x. x.0) same))
      loop a (invalid errors, f') same h = elim h [ ]
      loop a (unsorted, f') same h = h
      loop a (no_fuel, f') same h = h

      judge :
          ((v : ValidationResult) × (validate def ≡ some v))
          → IsRecorded (execute W e format show range run_id def input f)
      judge (v, run) = elim (Bool-cases v.valid) [
        | inl good ↦ loop (v, run, good) _ refl (execute-Saved (v, run, good))
        | inr bad ↦ rw (execute-rejected v run bad) ((v, run, bad, refl), refl)
      ]
