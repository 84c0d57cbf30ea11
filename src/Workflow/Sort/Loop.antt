-- ===== src/Workflow/Sort/Loop.antt =====
-- The loop of TopologicalSort (pkg/workflow/validator.go) where the step ids differ: what is taken
-- is a schedule, and the degrees count the dependencies that are not taken yet.
use ai_inference_managed_by.Workflow.Schedule.{
  listed-All, All-both, IsSchedule, IsSchedule-snoc, find_step, id_of_found, All-found,
}
use ai_inference_managed_by.Base.{
  Nodup-middle, or_left, or_right, ℕ, zero, suc, ◌+◌, ◌≡◌, refl, String, true, false, List, [], ◌∷◌,
  ◌++◌, some, ◌==◌, arith, length, All, All-split, elem, count, Nodup, Bool-cases, eqb, inl, inr,
  All-imp, append_assoc, eq_refl, elem-append, sym, ap, subst, All-elem_self, ◌∙◌,
}
use mathlib.Core.Option.{some-injective}
use ai_inference_managed_by.Base.Int.{ℤ, pos}
use ai_inference_managed_by.Base.Map.{Map, insert}
use ai_inference_managed_by.Workflow.Types.{WorkflowStep, WorkflowDef}
use ai_inference_managed_by.Workflow.Dsl.{step_ids, get_step_by_id}
use ai_inference_managed_by.Workflow.Sort.{
  RangeOrder, Frontier, degree, count_deps, relax_steps, drain,
}
use ai_inference_managed_by.Workflow.Sort.Fuel.{
  IsFrontier, relax_steps-IsFrontier, degree-insert, start, degrees, start-IsFrontier, elem-start,
}
use ai_inference_managed_by.Workflow.Sort.Relax.{
  remaining, remaining-snoc, Tracks, relax_steps-Tracks,
}

abbrev at : Map ℤ → List String → Frontier
at m queue = record { in_degree = m; queue = queue }

pub record Inv (steps : List WorkflowStep) (done : List String) (m : Map ℤ) (queue : List String)
    : Type 0 where
  pub frontier : IsFrontier (step_ids steps) done m queue
  pub tracks : All (λ s. Tracks done s.id (remaining done s.depends_on) (at m queue)) steps
  pub schedule : IsSchedule steps [] done

remaining-zero :
    (done deps : List String)
    → eqb (remaining done deps) 0 ≡ true
    → All (λ d. elem done d ≡ true) deps
remaining-zero done [] h = tt
remaining-zero done (d ∷ ds) h = elim (Bool-cases (elem done d)) [
  | inl e ↦ (e, remaining-zero done ds (ground arith))
  | inr e ↦ absurd (ground arith)
]

module _ (steps : List WorkflowStep) (unique : Nodup (step_ids steps)) (done : List String)
    (m : Map ℤ) (id : String) (rest : List String) (v : Inv steps done m (id ∷ rest)) where
  fresh : elem done id ≡ false
  fresh = Nodup-middle done id rest v.frontier.once

  -- Before the round, in terms of what is left after it.
  before_one :
      (s : WorkflowStep)
      → Tracks done s.id (remaining done s.depends_on) (at m (id ∷ rest))
      → Tracks
          (done ++ id ∷ [])
          s.id
          (remaining (done ++ id ∷ []) s.depends_on + count id s.depends_on)
          (at m rest)
  before_one s t = record {
    degree_eq = t.degree_eq ∙ ap pos (remaining-snoc done id s.depends_on fresh);
    elem_eq =
        rw append_assoc (t.elem_eq ∙ ap (λ n. eqb n 0) (remaining-snoc done id s.depends_on fresh));
  }

  round-IsSchedule : IsSchedule steps [] (done ++ id ∷ [])
  round-IsSchedule =
      let (s, g) = find_step id steps known in
      IsSchedule-snoc steps [] done id s v.schedule g (remaining-zero done s.depends_on (free s g))
    where
      known : elem (step_ids steps) id ≡ true
      known = (All-split _ done (id ∷ rest) v.frontier.known).1.0

      free :
          (s : WorkflowStep)
          → get_step_by_id id steps ≡ some s
          → eqb (remaining done s.depends_on) 0 ≡ true
      free s g =
          let t = All-found id _ steps s v.tracks g in
          sym t.elem_eq
          ∙ ap (elem (done ++ id ∷ rest)) (id_of_found id steps s g)
          ∙ (elem-append done (id ∷ rest) id ∙ ground (arith, eq_refl id))

  abbrev next : Frontier
  next = relax_steps id steps (at m rest)

  round-Inv : Inv steps (done ++ id ∷ []) next.in_degree next.queue
  round-Inv = record {
    frontier =
        relax_steps-IsFrontier (step_ids steps) (done ++ id ∷ []) id steps (at m rest)
          (All-elem_self (step_ids steps))
          (record {
            once = rw append_assoc v.frontier.once;
            spent = rw append_assoc v.frontier.spent;
            known = rw append_assoc v.frontier.known;
          });
    tracks =
        relax_steps-Tracks (done ++ id ∷ []) id (λ s. remaining (done ++ id ∷ []) s.depends_on)
          steps (at m rest) unique (All-imp _ _ steps before_one v.tracks);
    schedule = round-IsSchedule;
  }

pub drain-Inv :
    (fuel : ℕ) (steps : List WorkflowStep) (done : List String) (m : Map ℤ)
    (queue ids : List String)
    → Nodup (step_ids steps)
    → Inv steps done m queue
    → drain fuel steps done m queue ≡ some ids
    → (end : Map ℤ) × Inv steps ids end []
unfolding drain
drain-Inv fuel steps done m [] ids u v e =
    (m, subst (λ l. Inv steps l m []) (some-injective done ids e) v)
drain-Inv zero steps done m (id ∷ rest) ids u v e = absurd (cc)
drain-Inv (suc fuel) steps done m (id ∷ rest) ids u v e =
    drain-Inv fuel steps (done ++ id ∷ []) (next steps u done m id rest v).in_degree
      (next steps u done m id rest v).queue ids u (round-Inv steps u done m id rest v) e

remaining-nil : (deps : List String) → remaining [] deps ≡ length deps
remaining-nil [] = refl
remaining-nil (d ∷ ds) = ap suc (remaining-nil ds)

degree-count_deps_other :
    (m : Map ℤ) (ss : List WorkflowStep) (k : String)
    → elem (step_ids ss) k ≡ false
    → degree (count_deps m ss) k ≡ degree m k
unfolding count_deps
degree-count_deps_other m [] k h = refl
degree-count_deps_other m (s ∷ ss) k h =
    degree-count_deps_other (insert s.id (pos (length s.depends_on)) m) ss k (or_right _ _ h)
    ∙ rw (degree-insert, or_left (s.id == k) (elem (step_ids ss) k) h)

degree-count_deps :
    (m : Map ℤ) (ss : List WorkflowStep)
    → Nodup (step_ids ss)
    → All (λ s. degree (count_deps m ss) s.id ≡ pos (length s.depends_on)) ss
unfolding count_deps
degree-count_deps m [] u = tt
degree-count_deps m (s ∷ ss) u = (
  degree-count_deps_other (insert s.id (pos (length s.depends_on)) m) ss s.id u.0
      ∙ rw (degree-insert, eq_refl),
  degree-count_deps (insert s.id (pos (length s.depends_on)) m) ss u.1,
)

module _ (range : RangeOrder) (def : WorkflowDef) (unique : Nodup (step_ids def.steps)) where
  pub start-Inv : Inv def.steps [] (degrees range def) (start range def)
  start-Inv = record {
    frontier = start-IsFrontier range def;
    schedule = tt;
    tracks = All-imp _ _ def.steps track (
        All-both _ _ def.steps (degree-count_deps [] def.steps unique)
          (listed-All _ def.steps (λ s e. e)));
  }
    where
      track :
          (s : WorkflowStep)
          → (degree (degrees range def) s.id ≡ pos (length s.depends_on))
            × (elem (step_ids def.steps) s.id ≡ true)
          → Tracks [] s.id (remaining [] s.depends_on) (at (degrees range def) (start range def))
      track s h = record {
        degree_eq = rw remaining-nil h.0;
        elem_eq = rw (elem-start, remaining-nil, h.0, h.1);
      }
