-- ===== src/Workflow/Cycles/Verdict.antt =====
-- The verdict of detectCycles (pkg/workflow/validator.go), where the step ids differ and every
-- dependency exists: it reports an error exactly if some step depends on itself.
use ai_inference_managed_by.Workflow.Sort.Index.{lookup-index}
use ai_inference_managed_by.Workflow.Cycles.Path.{IsSchedule-acyclic, IsClosed, HasCycle}
use ai_inference_managed_by.Base.{
  eq_refl, ℕ, ◌≡◌, ◌↔◌, refl, String, Bool, true, false, List, [], ◌∷◌, Option, none, some, ◌+◌,
  length, arith, elem, Nodup, All, Bool-cases, Option-cases, inl, inr, subst,
}
use ai_inference_managed_by.Workflow.Cycles.Visit.{Judged, Valid, Done, visit-Judged}
use mathlib.Core.Option.{some-injective}
use ai_inference_managed_by.Base.Map.{Map, lookup}
use ai_inference_managed_by.Workflow.Types.{WorkflowStep, WorkflowDef}
use ai_inference_managed_by.Workflow.Dsl.{get_step_by_id, step_ids}
use ai_inference_managed_by.Workflow.Schedule.{IsSchedule, find_step}
use ai_inference_managed_by.Workflow.Sort.{index_steps}
use ai_inference_managed_by.Workflow.Cycles.{
  Search, flag, visit, search_from, CycleError, cycle_error, no_search, detect_cycles,
}
use ai_inference_managed_by.Workflow.Cycles.Fuel.{detect_cycles_terminates}

module _ (steps : List WorkflowStep) (m : Map WorkflowStep) (closed : IsClosed steps)
    (same : (k : String) → lookup k m ≡ get_step_by_id k steps) where
  abbrev Verdict : List WorkflowStep → List String → Option CycleError → Type 0
  Verdict ss fin (some e) = HasCycle steps
  Verdict ss fin none =
      (ids : List String) × IsSchedule steps [] ids
      × ((k : String) → elem fin k ≡ true → elem ids k ≡ true)
      × All (λ k. elem ids k ≡ true) (step_ids ss)

  pass :
      (s : WorkflowStep) (ss : List WorkflowStep) (fin fin' : List String) (r : Option CycleError)
      → ((k : String) → elem fin k ≡ true → elem fin' k ≡ true)
      → elem fin' s.id ≡ true
      → Verdict ss fin' r
      → Verdict (s ∷ ss) fin r
  pass s ss fin fin' (some e) grown here v = v
  pass s ss fin fin' none grown here (ids, sched, kept, all) =
      (ids, sched, (λ k h. kept k (grown k h)), (kept s.id here, all))

  search_from-Verdict :
      (fuel : ℕ) (ss : List WorkflowStep) (fin : List String) (st : Search) (r : Option CycleError)
      → ((k : String) → elem (step_ids ss) k ≡ true → elem (step_ids steps) k ≡ true)
      → Valid steps fin st
      → ((k : String) → flag st.rec_stack k ≡ false)
      → search_from fuel m ss st ≡ some r
      → Verdict ss fin r
  unfolding search_from
  search_from-Verdict fuel [] fin st r sub v idle e =
      subst (Verdict [] fin) (some-injective none r e) (fin, v.schedule, (λ k h. h), tt)
  search_from-Verdict fuel (s ∷ ss) fin st r sub v idle e =
      elim (Bool-cases (flag st.visited s.id)) [
        | inl old ↦
            pass s ss fin fin r (λ k h. h) (v.settled s.id old (idle s.id))
              (search_from-Verdict fuel ss fin st r (λ k h. sub k (ground arith)) v idle
                (ground (arith, old, e)))
        | inr new ↦ elim (Option-cases (visit fuel m s.id (record st { cycle_path = [] }))) [
          | inl stop ↦ absurd (ground (arith, new, stop, e))
          | inr ((true, st1), run) ↦
              subst (Verdict (s ∷ ss) fin)
                (some-injective (some (cycle_error s.id st1.cycle_path)) r
                  (ground (arith, new, run, e)))
                (judged (true, st1) run new)
          | inr ((false, st1), run) ↦
              let d : Done steps fin (record st { cycle_path = [] }) st1 s.id false =
                judged (false, st1) run new in
              pass s ss fin d.fin' r d.grown d.here (
                search_from-Verdict fuel ss d.fin' st1 r (λ k h. sub k (ground arith)) d.valid
                  (λ k. ground (arith, d.same k, idle k)) (ground (arith, new, run, e)))
        ]
      ]
    where
      judged :
          (o : Bool × Search)
          → visit fuel m s.id (record st { cycle_path = [] }) ≡ some o
          → flag st.visited s.id ≡ false
          → Judged steps fin (record st { cycle_path = [] }) s.id false o
      judged o run new =
          let (t, g) = find_step s.id steps (sub s.id (ground (arith, eq_refl s.id))) in
          visit-Judged steps m closed same fuel s.id fin (record st { cycle_path = [] }) o t g
            (record { schedule = v.schedule; settled = v.settled; stacked = v.stacked }) new
            (λ k h. ground (arith, idle k)) run

module _ (def : WorkflowDef) (unique : Nodup (step_ids def.steps))
    (closed : IsClosed def.steps) where
  verdict :
      (r : Option CycleError)
      → detect_cycles def ≡ some r
      → Verdict def.steps
          (index_steps [] def.steps)
          closed
          (lookup-index def.steps unique)
          def.steps
          []
          r
  unfolding detect_cycles flag lookup
  verdict r e =
      search_from-Verdict def.steps (index_steps [] def.steps) closed
        (lookup-index def.steps unique) (length def.steps + 1) def.steps [] no_search r (λ k h. h)
        (record { schedule = tt; settled = λ k a b. absurd (cc); stacked = λ k a. absurd (cc) })
        (λ k. refl) e

  -- If no cycle is reported, the steps have a schedule.
  pub detect_cycles-IsSchedule :
      detect_cycles def ≡ some none
      → (ids : List String) × IsSchedule def.steps [] ids
        × All (λ k. elem ids k ≡ true) (step_ids def.steps)
  detect_cycles-IsSchedule e = let (ids, sched, kept, all) = verdict none e in (ids, sched, all)

  -- On a definition whose step ids are distinct and whose dependencies exist, `detect_cycles` reports
  -- no error exactly if no step depends on itself, directly or through others.
  pub detect_cycles_iff : (detect_cycles def ≡ some none) ↔ (¬ HasCycle def.steps)
  detect_cycles_iff = (acyclic, quiet)
    where
      acyclic : detect_cycles def ≡ some none → ¬ HasCycle def.steps
      acyclic e =
          let (ids, sched, kept, all) = verdict none e in IsSchedule-acyclic def.steps ids sched all

      quiet : ¬ HasCycle def.steps → detect_cycles def ≡ some none
      quiet no_cycle = settle (detect_cycles_terminates def)
        where
          settle :
              ((r : Option CycleError) × (detect_cycles def ≡ some r))
              → detect_cycles def ≡ some none
          settle (none, e) = e
          settle (some error, e) = absurd (no_cycle (verdict (some error) e))
