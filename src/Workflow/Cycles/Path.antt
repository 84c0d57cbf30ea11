-- ===== src/Workflow/Cycles/Path.antt =====
-- Dependency paths, the specification of detectCycles (pkg/workflow/validator.go).
use ai_inference_managed_by.Base.{
  eq_of_==, arith, refl, ◌==◌, Bool-cases, ◌∙◌, All-elem, sym, ◌∷◌, subst, [], inr, inl, ◌⊎◌, ◌≡◌,
  String, true, List, some, elem, All,
}
use ai_inference_managed_by.Workflow.Schedule.{listed_of_found, IsSchedule}
use mathlib.Core.Option.{some-injective}
use ai_inference_managed_by.Workflow.Dsl.{step_ids, get_step_by_id}
use ai_inference_managed_by.Workflow.Types.{WorkflowStep}

-- The step `a` lists `b` among its dependencies.
pub record Edge (steps : List WorkflowStep) (a b : String) : Type 0 where
  pub step : WorkflowStep
  pub found : get_step_by_id a steps ≡ some step
  pub listed : elem step.depends_on b ≡ true

-- A chain of one or more dependencies.
pub data Reaches (steps : List WorkflowStep) (a : String) : String → Type 0 where
  one : {b : String} → Edge steps a b → Reaches steps a b
  more : {b c : String} → Reaches steps a b → Edge steps b c → Reaches steps a c

-- Every dependency is the id of a step.
abbrev pub IsClosed : List WorkflowStep → Type 0
IsClosed steps =
    (a b : String) → Edge steps a b → (s : WorkflowStep) × (get_step_by_id b steps ≡ some s)

-- Some step depends on itself, at once or through others.
abbrev pub HasCycle : List WorkflowStep → Type 0
HasCycle steps = (a : String) × Reaches steps a a

module _ (steps : List WorkflowStep) where
  -- A set of ids that holds the dependencies of its members.
  abbrev Holds : List String → Type 0
  Holds seen = (a b : String) → Edge steps a b → elem seen a ≡ true → elem seen b ≡ true

  Holds-Reaches :
      (seen : List String) (a : String) {b : String}
      → Holds seen
      → Reaches steps a b
      → elem seen a ≡ true
      → elem seen b ≡ true
  Holds-Reaches seen a holds (one {b = b} e) h = holds a b e h
  Holds-Reaches seen a holds (more {b = c} {c = b} r e) h =
      holds c b e (Holds-Reaches seen a holds r h)

  first-Edge :
      (a : String) {b : String}
      → Reaches steps a b
      → (c : String) × Edge steps a c × ((c ≡ b) ⊎ Reaches steps c b)
  first-Edge a (one {b = b} e) = (b, e, inl refl)
  first-Edge a (more {b = c} {c = d} r e) = extend (first-Edge a r) e
    where
      extend :
          {c d : String}
          → ((x : String) × Edge steps a x × ((x ≡ c) ⊎ Reaches steps x c))
          → Edge steps c d
          → (x : String) × Edge steps a x × ((x ≡ d) ⊎ Reaches steps x d)
      extend {d = d} (x, f, inl eq) e = (x, f, inr (one (subst (λ y. Edge steps y d) (sym eq) e)))
      extend (x, f, inr rest) e = (x, f, inr (more rest e))

  -- Nothing that a schedule lists depends on itself.
  schedule-acyclic :
      (seen ids : List String)
      → IsSchedule steps seen ids
      → Holds seen
      → ((x : String) → elem seen x ≡ true → ¬ Reaches steps x x)
      → (x : String) → elem ids x ≡ true
      → ¬ Reaches steps x x
  schedule-acyclic seen [] sched holds none_yet x h r = absurd (cc)
  schedule-acyclic seen (id ∷ ids) ((s, g, deps), sched) holds none_yet x h r =
      elim (Bool-cases (id == x)) [
        | inl e ↦ fresh (subst (λ y. Reaches steps y y) (sym (eq_of_== id x e)) r)
        | inr e ↦ schedule-acyclic (id ∷ seen) ids sched holds' none' x (ground arith) r
      ]
    where
      dep_seen : (b : String) → Edge steps id b → elem seen b ≡ true
      dep_seen b e =
          let same = some-injective e.step s (sym e.found ∙ g) in
          All-elem _ s.depends_on b deps
            (subst (λ (t : WorkflowStep). elem t.depends_on b ≡ true) same e.listed)

      fresh : ¬ Reaches steps id id
      fresh loop =
          let (c, e, rest) = first-Edge id loop in
          none_yet id
            (elim rest [
              | inl eq ↦ subst (λ y. elem seen y ≡ true) eq (dep_seen c e)
              | inr far ↦ Holds-Reaches seen c holds far (dep_seen c e)
            ])
            loop

      holds' : Holds (id ∷ seen)
      holds' a b e h = elim (Bool-cases (id == a)) [
        | inl eq ↦
            ground (arith, dep_seen b (subst (λ y. Edge steps y b) (sym (eq_of_== id a eq)) e))
        | inr ne ↦ ground (arith, holds a b e)
      ]

      none' : (y : String) → elem (id ∷ seen) y ≡ true → ¬ Reaches steps y y
      none' y h' = elim (Bool-cases (id == y)) [
        | inl eq ↦ subst (λ z. ¬ Reaches steps z z) (eq_of_== id y eq) fresh
        | inr ne ↦ none_yet y (ground arith)
      ]

  pub IsSchedule-acyclic :
      (ids : List String)
      → IsSchedule steps [] ids
      → All (λ k. elem ids k ≡ true) (step_ids steps)
      → ¬ HasCycle steps
  IsSchedule-acyclic ids sched all (x, r) =
      schedule-acyclic [] ids sched (λ a b e h. absurd (cc)) (λ y h. absurd (cc)) x listed r
    where
      listed : elem ids x ≡ true
      listed =
          let (c, e, rest) = first-Edge x r in
          All-elem _ (step_ids steps) x all (listed_of_found x steps e.step e.found)
