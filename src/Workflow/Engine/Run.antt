-- ===== src/Workflow/Engine/Run.antt =====
-- What a run of WorkflowEngine.Execute (pkg/workflow/engine.go) guarantees.
use ai_inference_managed_by.Workflow.Engine.{
  resolving, finish, is_failed, after_step, ErrorText, StepResult, ExecutionResult, StepOutcome,
  done, panicked, Outcome, finished, crashed, Effects, WorkflowEngine, attempt, max_attempts,
  conclude, execute_step, finish_output, execute_steps, execute_unit,
}
use ai_inference_managed_by.Base.Result.{Result-cases, Result, ok, err}
use ai_inference_managed_by.Base.{
  eq_refl, inr, ◌⊎◌, inl, All-imp, ℕ, zero, suc, ◌≡◌, ◌≢◌, ◌<◌, refl, String, Bool, true, false,
  List, [], ◌∷◌, ◌++◌, ◌==◌, Option, none, some, arith, All, map, Bool-cases, subst,
}
use mathlib.Core.List.{Perm}
use ai_inference_managed_by.Base.Map.{Map, lookup, insert, lookup-insert}
use ai_inference_managed_by.Workflow.Types.{
  Value, Fields, WorkflowStep, WorkflowDef, ExecutionContext, ExecutionStatus, completed, failed,
}
use ai_inference_managed_by.Workflow.Resolver.{resolve_step_input, resolve_output}
use ai_inference_managed_by.Workflow.Sort.{RangeOrder, topological_sort}
use ai_inference_managed_by.Workflow.Sort.Correct.{
  IsOrdered, topological_sort_sound, topological_sort_complete,
}
use ai_inference_managed_by.Workflow.Cycles.Verdict.{detect_cycles_iff, detect_cycles-IsSchedule}
use ai_inference_managed_by.Workflow.Validator.WellFormed.{
  IsAccepted, validate-IsWellFormed, deps-IsClosed,
}

-- Sorting an accepted definition succeeds, with a permutation of its steps in which every step stands
-- behind its dependencies.
pub sort_accepted :
    (range : RangeOrder) (def : WorkflowDef)
    → IsAccepted def
    → (sorted : List (Option WorkflowStep)) × (topological_sort range def ≡ some (ok sorted))
      × Perm sorted (map some def.steps)
      × IsOrdered [] sorted
sort_accepted range def a =
    let w = validate-IsWellFormed def a in
    let closed = deps-IsClosed def (All-imp _ _ def.steps (λ s h. h.deps) w.steps) in
    let (ids, sched, all) =
      detect_cycles-IsSchedule def w.unique closed
        ((detect_cycles_iff def w.unique closed).1 w.acyclic) in
    let (sorted, e) = topological_sort_complete range def w.unique ids sched all in
    let (perm, ordered) = topological_sort_sound range def w.unique sorted e in
    (sorted, e, perm, ordered)

abbrev pub is_completed : ExecutionStatus → Bool
is_completed completed = true
is_completed _ = false

-- The step with the id has a result, and that is `completed`.
abbrev pub completed_in : Map StepResult → String → Bool
completed_in m k = elim (lookup k m) [ none ↦ false | some r ↦ is_completed r.status ]

module _ (W : Type 0) (e : WorkflowEngine W) (format : Value → String)
    (show : ErrorText → Value) where
  module _ (rest : ExecutionResult → ExecutionContext → Effects W → Outcome × Effects W)
      (s : WorkflowStep) (r : ExecutionResult) (ctx : ExecutionContext) (f : Effects W) where
    abbrev pub recorded : StepResult → ExecutionResult
    recorded sr = record r { step_results = insert s.id sr r.step_results }

    pub after_step_ind :
        (Q : Outcome × Effects W → Type 0) (o : StepOutcome)
        → (o ≡ panicked → Q (crashed, f))
        → ((sr : StepResult)
            → o ≡ done sr
            → is_failed sr.status ≡ true
            → Q (
                finish W e format show
                  (record (recorded sr) { status = failed; error = sr.error })
                  sr.error
                  f))
        → ((sr : StepResult)
            → o ≡ done sr
            → is_failed sr.status ≡ false
            → Q (rest (recorded sr) (record ctx { steps = insert s.id sr.output ctx.steps }) f))
        → Q (after_step W e format show rest s r ctx f o)
    unfolding after_step
    after_step_ind Q panicked crash fail go = crash refl
    after_step_ind Q (done sr) crash fail go = elim (Bool-cases (is_failed sr.status)) [
      | inl b ↦ rw b (fail sr refl b)
      | inr b ↦ rw b (go sr refl b)
    ]

  -- An outcome of the loop over the steps, with what it has saved.
  abbrev pub Saved : Effects W → Outcome × Effects W → Type 0
  Saved f (finished r error, f') = f'.saved ≡ f.saved ++ r ∷ []
  Saved f (crashed, f') = f'.saved ≡ f.saved
  Saved f (_, f') = ⊥

  pub execute_steps-Saved :
      (def : WorkflowDef) (ss : List (Option WorkflowStep)) (r : ExecutionResult)
      (ctx : ExecutionContext) (f : Effects W)
      → Saved f (execute_steps W e format show def ss r ctx f)
  unfolding execute_steps
  execute_steps-Saved def [] r ctx f = ground arith
  execute_steps-Saved def (none ∷ ss) r ctx f = refl
  execute_steps-Saved def (some s ∷ ss) r ctx f =
      let (o, w) = execute_step W e format show ctx s f.world in
      after_step_ind (execute_steps W e format show def ss) s r ctx (record f { world = w })
        (Saved f) o (λ p. refl) (λ sr p b. refl)
        (λ sr p b. execute_steps-Saved def ss _ _ (record f { world = w }))

  -- What a step can come to.
  abbrev Sound : StepOutcome → Type 0
  Sound panicked = Unit
  Sound (done sr) =
      (is_completed sr.status ≡ true)
      ⊎ ((is_failed sr.status ≡ true) × (error : ErrorText) × (sr.error ≡ some error))

  conclude-Sound :
      (s : WorkflowStep) (r : Result (Option ErrorText) Fields) → Sound (conclude W e show s r)
  conclude-Sound s (ok m) = inl refl
  conclude-Sound s (err none) = tt
  conclude-Sound s (err (some error)) = elim (Bool-cases (s.on_failure == "continue")) [
    | inl b ↦ rw b (inl refl)
    | inr b ↦ rw b (inr (refl, error, refl))
  ]

  execute_step-Sound :
      (ctx : ExecutionContext) (s : WorkflowStep) (w : W)
      → Sound (execute_step W e format show ctx s w).0
  unfolding execute_step
  execute_step-Sound ctx s w = elim (Result-cases (resolve_step_input ctx format s)) [
    | inl (input, run) ↦
        rw (run, execute_step)
          (conclude-Sound s (attempt W e (max_attempts W e s) none s.type input w).0)
    | inr (error, run) ↦ rw (run, execute_step) (inr (refl, resolving error, refl))
  ]

  -- The loop has come through: every listed step has the result `completed`.
  abbrev pub Listed : ExecutionResult → Option WorkflowStep → Type 0
  Listed r none = ⊥
  Listed r (some s) = completed_in r.step_results s.id ≡ true

  abbrev pub Through : List (Option WorkflowStep) → ExecutionResult → Outcome × Effects W → Type 0
  Through ss r0 (finished r none, f) =
      (r.status ≡ completed)
      × ((k : String)
          → completed_in r0.step_results k ≡ true
          → completed_in r.step_results k ≡ true)
      × All (Listed r) ss
  Through ss r0 (_, f) = Unit

  failed_error :
      (sr : StepResult)
      → Sound (done sr)
      → is_failed sr.status ≡ true
      → (error : ErrorText) × (sr.error ≡ some error)
  failed_error sr (inl c) b = absurd (ground arith)
  failed_error sr (inr (c, x, e)) b = (x, e)

  completed_status :
      (sr : StepResult)
      → Sound (done sr)
      → is_failed sr.status ≡ false
      → is_completed sr.status ≡ true
  completed_status sr (inl c) b = c
  completed_status sr (inr (c, x, e)) b = absurd (ground arith)

  Through-failed :
      (ss : List (Option WorkflowStep)) (r0 r : ExecutionResult) (error : Option ErrorText)
      (f : Effects W)
      → ((x : ErrorText) × (error ≡ some x))
      → Through ss r0 (finished r error, f)
  Through-failed ss r0 r none f (x, e) = absurd (cc)
  Through-failed ss r0 r (some y) f (x, e) = tt

  extend :
      (s : WorkflowStep) (ss : List (Option WorkflowStep)) (r : ExecutionResult) (sr : StepResult)
      → is_completed sr.status ≡ true
      → (x : Outcome × Effects W)
      → Through ss (record r { step_results = insert s.id sr r.step_results }) x
      → Through (some s ∷ ss) r x
  extend s ss r sr c (finished r' none, f) (a, kept, all) = (
    a,
    (λ k h. kept k (ground (arith, lookup-insert s.id k sr r.step_results))),
    (kept s.id (ground (arith, lookup-insert s.id s.id sr r.step_results, eq_refl s.id)), all),
  )
  extend s ss r sr c (finished r' (some y), f) h = tt
  extend s ss r sr c (_, f) h = tt

  pub execute_steps-Through :
      (def : WorkflowDef) (ss : List (Option WorkflowStep)) (r : ExecutionResult)
      (ctx : ExecutionContext) (f : Effects W)
      → Through ss r (execute_steps W e format show def ss r ctx f)
  unfolding execute_steps
  execute_steps-Through def [] r ctx f =
      elim (Result-cases (resolve_output ctx format def.output)) [
        | inl (m, run) ↦ rw (run, finish_output) (refl, (λ k h. h), tt)
        | inr (error, run) ↦ rw (run, finish_output) tt
      ]
  execute_steps-Through def (none ∷ ss) r ctx f = tt
  execute_steps-Through def (some s ∷ ss) r ctx f =
      let (o, w) = execute_step W e format show ctx s f.world in
      after_step_ind (execute_steps W e format show def ss) s r ctx (record f { world = w })
        (Through (some s ∷ ss) r) o (λ p. tt)
        (λ sr p b.
          Through-failed (some s ∷ ss) r
            (record (recorded (execute_steps W e format show def ss) s r ctx f sr) {
              status = failed;
              error = sr.error;
            })
            sr.error _ (failed_error sr (subst Sound p (execute_step-Sound ctx s f.world)) b))
        (λ sr p b.
          extend s ss r sr
            (completed_status sr (subst Sound p (execute_step-Sound ctx s f.world)) b) _
            (execute_steps-Through def ss _ _ (record f { world = w })))

  -- A step whose loop makes at least one attempt.
  abbrev pub Tries : Option WorkflowStep → Type 0
  Tries none = ⊥
  Tries (some s) = 0 < max_attempts W e s

  attempt-ne-none :
      (n : ℕ) (last : Option ErrorText) (type : String) (input : Fields) (w : W)
      → 0 < n ⊎ (last ≢ none)
      → (attempt W e n last type input w).0 ≢ err none
  unfolding attempt
  attempt-ne-none zero last type input w (inl z) = absurd (omega arith)
  attempt-ne-none zero last type input w (inr q) = λ p. q (ground arith)
  attempt-ne-none (suc n) last type input w h =
      elim (Result-cases (execute_unit W e type input w).0) [
        | inl (m, run) ↦ rw (run, attempt) (λ p. cc)
        | inr (x, run) ↦
            rw (run, attempt)
              (attempt-ne-none n (some x) type input (execute_unit W e type input w).1
                (inr (λ q. cc)))
      ]

  conclude-ne-panicked :
      (s : WorkflowStep) (r : Result (Option ErrorText) Fields)
      → r ≢ err none
      → conclude W e show s r ≢ panicked
  conclude-ne-panicked s (ok m) h = λ p. cc
  conclude-ne-panicked s (err none) h = absurd (h refl)
  conclude-ne-panicked s (err (some error)) h = ground arith

  pub execute_step-ne-panicked :
      (ctx : ExecutionContext) (s : WorkflowStep) (w : W)
      → 0 < max_attempts W e s
      → (execute_step W e format show ctx s w).0 ≢ panicked
  unfolding execute_step
  execute_step-ne-panicked ctx s w h = elim (Result-cases (resolve_step_input ctx format s)) [
    | inl (input, run) ↦
        rw (run, execute_step)
          (conclude-ne-panicked s _
            (attempt-ne-none (max_attempts W e s) none s.type input w (inl h)))
    | inr (error, run) ↦ rw (run, execute_step) (λ p. cc)
  ]

  pub execute_steps-ne-crashed :
      (def : WorkflowDef) (ss : List (Option WorkflowStep)) (r : ExecutionResult)
      (ctx : ExecutionContext) (f : Effects W)
      → All Tries ss
      → (execute_steps W e format show def ss r ctx f).0 ≢ crashed
  unfolding execute_steps
  execute_steps-ne-crashed def [] r ctx f h =
      elim (Result-cases (resolve_output ctx format def.output)) [
        | inl (m, run) ↦ rw (run, finish_output) (λ p. cc)
        | inr (error, run) ↦ rw (run, finish_output) (λ p. cc)
      ]
  execute_steps-ne-crashed def (none ∷ ss) r ctx f h = elim h.0 [ ]
  execute_steps-ne-crashed def (some s ∷ ss) r ctx f h =
      let (o, w) = execute_step W e format show ctx s f.world in
      after_step_ind (execute_steps W e format show def ss) s r ctx (record f { world = w })
        (λ x. x.0 ≢ crashed) o (λ p. absurd (execute_step-ne-panicked ctx s f.world h.0 p))
        (λ sr p b. λ c. cc)
        (λ sr p b. execute_steps-ne-crashed def ss _ _ (record f { world = w }) h.1)
