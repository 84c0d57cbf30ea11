-- ===== src/Unit/Pipeline/Steps/Fuel.antt =====
-- The search of ValidateSteps (pkg/unit/pipeline/executor.go) ends: each nested call has marked one more
-- step, and a call that finds no cycle leaves the marks as they were.
use ai_inference_managed_by.Base.{
  ℕ, zero, suc, ◌≤◌, ◌<◌, ◌≡◌, ◌↔◌, refl, sym, ap, ◌∙◌, subst, String, Bool, true, false, List, [],
  ◌∷◌, ◌++◌, Option, none, some, ◌==◌, elem, remove, length, if◌then◌else◌, Bool-cases, inl, inr,
  arith, eq_iff, eq_refl,
}
use ai_inference_managed_by.Unit.Pipeline.{PipelineStep}
use ai_inference_managed_by.Unit.Pipeline.Steps.{
  StepIssue, ids_of, Walk, Visited, visit_deps, visit_steps, visit, visit_all, after_call,
  validate_steps, check_ids, check_all_deps,
}

-- How many of the ids are not marked.
abbrev unmarked : List String → List String → ℕ
unmarked [] marks = 0
unmarked (k ∷ ks) marks = if elem marks k then unmarked ks marks else suc (unmarked ks marks)

unmarked-le :
    (ks : List String) (k : String) (marks : List String)
    → unmarked ks (k ∷ marks) ≤ unmarked ks marks
unmarked-le [] k marks = omega arith
unmarked-le (j ∷ ks) k marks = ground (arith, unmarked-le ks k marks)

unmarked-lt :
    (ks : List String) (k : String) (marks : List String)
    → elem ks k ≡ true
    → elem marks k ≡ false
    → unmarked ks (k ∷ marks) < unmarked ks marks
unmarked-lt [] k marks h e = absurd (cc)
unmarked-lt (j ∷ ks) k marks h e =
    ground (arith, unmarked-le ks k marks, unmarked-lt ks k marks, eq_iff j k, eq_iff k j)

unmarked-none : (ks : List String) → unmarked ks [] ≤ length ks
unmarked-none [] = omega arith
unmarked-none (k ∷ ks) = omega (arith, unmarked-none ks)

length-ids_of : (steps : List PipelineStep) → length (ids_of steps) ≡ length steps
length-ids_of [] = refl
length-ids_of (step ∷ steps) = omega (arith, length-ids_of steps)

-- The call returns, and if it has found no cycle, the marks are as they were.
record Ends (w : Walk) (o : Visited) : Type 0 where
  found : Bool
  after : Walk
  ends : o ≡ some (found, after)
  same : found ≡ false → after.visited ≡ w.visited

shift-Ends : (v w : Walk) (o : Visited) → v.visited ≡ w.visited → Ends v o → Ends w o
shift-Ends v w o e r = record {
  found = r.found;
  after = r.after;
  ends = r.ends;
  same = λ h. r.same h ∙ e;
}

after_call-Ends :
    (v w : Walk) (o : Visited) (on_found on_clear : Walk → Visited)
    → Ends v o
    → ((a : Walk) → (b : Walk) × (on_found a ≡ some (true, b)))
    → ((a : Walk) → a.visited ≡ v.visited → Ends w (on_clear a))
    → Ends w (after_call o on_found on_clear)
after_call-Ends v w o on_found on_clear r when_yes when_no = elim (Bool-cases r.found) [
  | inl e ↦ record {
    found = true;
    after = (when_yes r.after).0;
    ends = rw (r.ends, e) ((when_yes r.after).1);
    same = λ h. absurd (cc);
  }
  | inr e ↦ rw (r.ends, e) (when_no r.after (r.same e))
]

module _ (call : String → Walk → Visited) (id : String) (marks : List String) where
  visit_deps-Ends :
      ((dep : String) (s : Walk) → s.visited ≡ marks → Ends s (call dep s))
      → (deps : List String) (w : Walk) → w.visited ≡ marks
      → Ends w (visit_deps call id deps w)
  unfolding visit_deps
  visit_deps-Ends ends_ [] w e = record { found = false; after = w; ends = refl; same = λ h. refl }
  visit_deps-Ends ends_ (dep ∷ deps) w e =
      after_call-Ends w w (call dep w) _ _ (ends_ dep w e) (λ a. (_, refl))
        (λ a s. shift-Ends a w _ s (visit_deps-Ends ends_ deps a (s ∙ e)))

  visit_steps-Ends :
      (steps : List PipelineStep) (w : Walk)
      → w.visited ≡ marks
      → (elem (ids_of steps) id ≡ true
          → (dep : String) (s : Walk) → s.visited ≡ marks
          → Ends s (call dep s))
      → Ends w (visit_steps call id steps w)
  unfolding visit_steps
  visit_steps-Ends [] w e ends_ = record { found = false; after = w; ends = refl; same = λ h. refl }
  visit_steps-Ends (step ∷ steps) w e ends_ =
      let later : elem (ids_of steps) id ≡ true → elem (ids_of (step ∷ steps)) id ≡ true =
        λ h. ground (arith, h) in
      elim (Bool-cases (step.id == id)) [
        | inl here ↦
            rw (here, visit_steps)
              (after_call-Ends w w (visit_deps call id step.depends_on w) _ _
                (visit_deps-Ends (ends_ (ground (arith, here))) step.depends_on w e)
                (λ a. (_, refl))
                (λ a s.
                  shift-Ends a w _ s (visit_steps-Ends steps a (s ∙ e) (λ h. ends_ (later h)))))
        | inr other ↦ rw (other, visit_steps) (visit_steps-Ends steps w e (λ h. ends_ (later h)))
      ]

visit-Ends :
    (n : ℕ) (steps : List PipelineStep) (id : String) (w : Walk)
    → suc (unmarked (ids_of steps) w.visited) < n
    → Ends w (visit n steps id w)
unfolding visit
visit-Ends zero steps id w h = absurd (omega arith)
visit-Ends (suc n) steps id w h = elim (Bool-cases (elem w.visited id)) [
  | inl old ↦ record {
    found = true;
    after = w;
    ends = rw (old, visit) refl;
    same = λ h. absurd (cc);
  }
  | inr new ↦
      let v : Walk = record w { visited = id ∷ w.visited } in
      rw (new, visit)
        (after_call-Ends v w (visit_steps (visit n steps) id steps v) _ _
          (visit_steps-Ends (visit n steps) id v.visited steps v refl (λ inside dep s e.
            visit-Ends n steps dep s (
              subst (λ m. suc (unmarked (ids_of steps) m) < n) (sym e)
                (omega (arith, h, unmarked-lt (ids_of steps) id w.visited inside new)))))
          (λ a. (_, refl))
          (λ a s. record {
            found = false;
            after = record a { visited = remove id a.visited };
            ends = refl;
            same = λ h. ap (remove id) s ∙ ground (arith, eq_refl id);
          }))
]

visit_all-returns :
    (n : ℕ) (steps rest : List PipelineStep) (issues : List StepIssue)
    → suc (length steps) < n
    → (r : List StepIssue) × (visit_all n steps rest issues ≡ some r)
unfolding visit_all
visit_all-returns n steps [] issues h = (issues, refl)
visit_all-returns n steps (step ∷ rest) issues h =
    let e =
      visit-Ends n steps step.id (record { visited = []; issues = issues })
        (omega (arith, h, unmarked-none (ids_of steps), length-ids_of steps)) in
    let (r, eq) = visit_all-returns n steps rest e.after.issues h in (r, rw (e.ends, visit_all) eq)

-- The verdict on a list of steps goes with its issues.
abbrev pub Verdict : Option (Bool × List StepIssue) → Type 0
Verdict none = ⊥
Verdict (some (valid, issues)) = (valid ≡ true) ↔ (issues ≡ [])

validate_steps-Verdict_of :
    (steps : List PipelineStep) (r : List StepIssue)
    → visit_all
        (suc (suc (length steps)))
        steps
        steps
        (check_ids [] steps ++ check_all_deps (ids_of steps) steps)
      ≡ some r
    → Verdict (validate_steps steps)
unfolding validate_steps
validate_steps-Verdict_of steps [] e = rw (e, validate_steps) (((λ h. refl), λ h. refl))
validate_steps-Verdict_of steps (issue ∷ r) e =
    rw (e, validate_steps) (((λ h. absurd (cc)), λ h. absurd (cc)))

-- ValidateSteps returns on every list of steps, whatever its ids and dependencies are, and its verdict
-- is true exactly when it has no issue.
pub validate_steps-Verdict : (steps : List PipelineStep) → Verdict (validate_steps steps)
validate_steps-Verdict steps =
    let (r, e) =
      visit_all-returns (suc (suc (length steps))) steps steps
        (check_ids [] steps ++ check_all_deps (ids_of steps) steps) (omega arith) in
    validate_steps-Verdict_of steps r e
