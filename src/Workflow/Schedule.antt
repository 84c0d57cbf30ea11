-- ===== src/Workflow/Schedule.antt =====
-- What an execution order of a workflow is (the specification of pkg/workflow/validator.go): every
-- step stands behind the steps that it depends on.
use ai_inference_managed_by.Base.{
  apart, Nodup, ◌≡◌, String, true, List, [], ◌∷◌, ◌++◌, some, ◌==◌, ◌||◌, arith, All, All-imp, elem,
  eq_refl, Bool-cases, eq_of_==, subst, inl, inr,
}
use ai_inference_managed_by.Workflow.Types.{WorkflowStep}
use ai_inference_managed_by.Workflow.Dsl.{step_ids, get_step_by_id}

-- The ids that `ids` lists behind `seen` are ids of steps whose dependencies stand before them.
abbrev pub IsSchedule : List WorkflowStep → List String → List String → Type 0
IsSchedule steps seen [] = Unit
IsSchedule steps seen (id ∷ ids) =
    ((s : WorkflowStep) × (get_step_by_id id steps ≡ some s)
      × All (λ d. elem seen d ≡ true) s.depends_on)
    × IsSchedule steps (id ∷ seen) ids

pub IsSchedule-snoc :
    (steps : List WorkflowStep) (seen xs : List String) (id : String) (s : WorkflowStep)
    → IsSchedule steps seen xs
    → get_step_by_id id steps ≡ some s
    → All (λ d. (elem seen d || elem xs d) ≡ true) s.depends_on
    → IsSchedule steps seen (xs ++ id ∷ [])
IsSchedule-snoc steps seen [] id s h g deps =
    ((s, g, All-imp _ _ s.depends_on (λ d e. ground arith) deps), tt)
IsSchedule-snoc steps seen (x ∷ xs) id s h g deps = (
  h.0,
  IsSchedule-snoc steps (x ∷ seen) xs id s h.1 g
      (All-imp _ _ s.depends_on (λ d e. ground arith) deps),
)

module _ (id : String) where
  pub find_step :
      (ss : List WorkflowStep)
      → elem (step_ids ss) id ≡ true
      → (s : WorkflowStep) × (get_step_by_id id ss ≡ some s)
  unfolding get_step_by_id
  find_step [] h = absurd (cc)
  find_step (s ∷ ss) h = elim (Bool-cases (s.id == id)) [
    | inl e ↦ (s, rw e)
    | inr e ↦ let r = find_step ss (ground arith) in (r.0, rw e r.1)
  ]

  pub id_of_found :
      (ss : List WorkflowStep) (s : WorkflowStep) → get_step_by_id id ss ≡ some s → s.id ≡ id
  unfolding get_step_by_id
  id_of_found [] s h = absurd (cc)
  id_of_found (t ∷ ts) s h = elim (Bool-cases (t.id == id)) [
    | inl e ↦ ground (arith, eq_of_== t.id id)
    | inr e ↦ id_of_found ts s (ground arith)
  ]

  pub All-found {κ} :
      (P : WorkflowStep → Type κ) (ss : List WorkflowStep) (s : WorkflowStep)
      → All P ss
      → get_step_by_id id ss ≡ some s
      → P s
  unfolding get_step_by_id
  All-found P [] s h g = absurd (cc)
  All-found P (t ∷ ts) s h g = elim (Bool-cases (t.id == id)) [
    | inl e ↦ subst P (ground arith) h.0
    | inr e ↦ All-found P ts s h.1 (ground arith)
  ]

  pub listed_of_found :
      (ss : List WorkflowStep) (s : WorkflowStep)
      → get_step_by_id id ss ≡ some s
      → elem (step_ids ss) id ≡ true
  unfolding get_step_by_id
  listed_of_found [] s h = absurd (cc)
  listed_of_found (t ∷ ts) s h = elim (Bool-cases (t.id == id)) [
    | inl e ↦ rw e
    | inr e ↦ rw e (listed_of_found ts s (ground arith))
  ]

-- A schedule lists ids of steps only.
pub IsSchedule-known :
    (steps : List WorkflowStep) (seen xs : List String)
    → IsSchedule steps seen xs
    → All (λ x. elem (step_ids steps) x ≡ true) xs
IsSchedule-known steps seen [] h = tt
IsSchedule-known steps seen (x ∷ xs) h =
    (listed_of_found x steps h.0.0 h.0.1, IsSchedule-known steps (x ∷ seen) xs h.1)

-- Every step of the list satisfies what follows from its id being listed.
pub listed-All :
    (P : WorkflowStep → Type 0) (ss : List WorkflowStep)
    → ((s : WorkflowStep) → elem (step_ids ss) s.id ≡ true → P s)
    → All P ss
listed-All P [] f = tt
listed-All P (s ∷ ss) f =
    (f s (ground (arith, eq_refl s.id)), listed-All P ss (λ t e. f t (ground arith)))

pub All-both {κ} :
    (P Q : WorkflowStep → Type κ) (ss : List WorkflowStep)
    → All P ss
    → All Q ss
    → All (λ s. P s × Q s) ss
All-both P Q [] p q = tt
All-both P Q (s ∷ ss) p q = ((p.0, q.0), All-both P Q ss p.1 q.1)

-- Where the ids differ, each step is found by its id.
pub found-All :
    (ss : List WorkflowStep) → Nodup (step_ids ss) → All (λ s. get_step_by_id s.id ss ≡ some s) ss
unfolding get_step_by_id
found-All [] u = tt
found-All (s ∷ ss) u = (
  rw eq_refl,
  All-imp _ _ ss (λ t h. rw (apart (step_ids ss) s.id t.id u.0 h.1) h.0)
      (All-both _ _ ss (found-All ss u.1) (listed-All _ ss (λ t e. e))),
)
