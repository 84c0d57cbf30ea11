-- ===== src/Workflow/Sort/Fuel.antt =====
-- The loop of TopologicalSort (pkg/workflow/validator.go) ends, whatever the definition: an id is
-- queued when its degree falls to zero, and the degree only falls.
use ai_inference_managed_by.Base.{
  ℕ, zero, suc, ◌+◌, ◌≤◌, ◌≡◌, refl, String, true, false, List, [], ◌∷◌, ◌++◌, Option, some, ◌==◌,
  arith, if◌then◌else◌, length, All, elem, Nodup, eq_iff, Bool-cases, eq_of_==, inl, inr, All-imp,
  All-append, All-elem, All-intro, All-elem_self, ◌&&◌, ◌||◌, Nodup-snoc, append_assoc,
  length-append, length-le_of_subset, eq_refl, and_left, and_right,
}
use ai_inference_managed_by.Base.Int.{ℤ, pos, negsuc, pred_ℤ, is_zero, is_nonpos}
use ai_inference_managed_by.Base.Map.{
  Map, insert, keys, lookup-insert, elem-keys-insert, Nodup-keys-insert,
}
use ai_inference_managed_by.Base.Result.{Result}
use ai_inference_managed_by.Workflow.Types.{WorkflowStep, WorkflowDef}
use ai_inference_managed_by.Workflow.Dsl.{step_ids, length-step_ids}
use ai_inference_managed_by.Workflow.Sort.{
  RangeOrder, Frontier, degree, count_deps, initial_queue, relax_dep, relax_deps, relax_steps,
  drain, topological_sort, SortError, check_length, fetch, index_steps,
}

pub degree-insert :
    (k j : String) (d : ℤ) (m : Map ℤ)
    → degree (insert k d m) j ≡ (if k == j then d else degree m j)
unfolding degree
degree-insert k j d m = ground (arith, lookup-insert k j d m)

is_nonpos-pred : (d : ℤ) → is_nonpos d ≡ true → is_nonpos (pred_ℤ d) ≡ true
is_nonpos-pred (pos zero) h = refl
is_nonpos-pred (pos (suc n)) h = absurd (ground arith)
is_nonpos-pred (negsuc n) h = refl

is_zero-nonpos : (d : ℤ) → is_zero d ≡ true → is_nonpos d ≡ true
is_zero-nonpos (pos n) h = h
is_zero-nonpos (negsuc n) h = refl

not-zero_of_nonpos : (d : ℤ) → is_nonpos d ≡ true → is_zero (pred_ℤ d) ≡ false
not-zero_of_nonpos (pos zero) h = refl
not-zero_of_nonpos (pos (suc n)) h = absurd (ground arith)
not-zero_of_nonpos (negsuc n) h = refl

is_nonpos-lower :
    (sid k : String) (m : Map ℤ)
    → is_nonpos (degree m k) ≡ true
    → is_nonpos (degree (insert sid (pred_ℤ (degree m sid)) m) k) ≡ true
is_nonpos-lower sid k m h = elim (Bool-cases (sid == k)) [
  | inl e ↦ rw (degree-insert, e) (rw (eq_of_== sid k e) (is_nonpos-pred (degree m k) h))
  | inr e ↦ rw (degree-insert, e) h
]

module _ (ids base : List String) where
  pub record IsFrontier (m : Map ℤ) (queue : List String) : Type 0 where
    pub once : Nodup (base ++ queue)
    pub spent : All (λ k. is_nonpos (degree m k) ≡ true) (base ++ queue)
    pub known : All (λ k. elem ids k ≡ true) (base ++ queue)

  module _ (sid : String) (listed : elem ids sid ≡ true) where
    -- One count down, with the id queued if it comes to zero.
    lower-IsFrontier :
        (m : Map ℤ) (queue : List String)
        → IsFrontier m queue
        → IsFrontier
            (insert sid (pred_ℤ (degree m sid)) m)
            (if is_zero (pred_ℤ (degree m sid)) then queue ++ sid ∷ [] else queue)
    lower-IsFrontier m queue v = elim (Bool-cases (is_zero (pred_ℤ (degree m sid)))) [
      | inr e ↦ rw e (record { once = v.once; spent = still; known = v.known })
      | inl e ↦ rw e (record {
        once = rw (← append_assoc) (Nodup-snoc (base ++ queue) sid v.once (fresh e));
        spent = rw (← append_assoc) (All-append _ (base ++ queue) (sid ∷ []) still (lowered e, tt));
        known = rw (← append_assoc) (All-append _ (base ++ queue) (sid ∷ []) v.known (listed, tt));
      })
    ]
      where
        still :
            All
              (λ k. is_nonpos (degree (insert sid (pred_ℤ (degree m sid)) m) k) ≡ true)
              (base ++ queue)
        still = All-imp _ _ (base ++ queue) (λ k. is_nonpos-lower sid k m) v.spent

        fresh : is_zero (pred_ℤ (degree m sid)) ≡ true → elem (base ++ queue) sid ≡ false
        fresh e = elim (Bool-cases (elem (base ++ queue) sid)) [
          | inr n ↦ n
          | inl h ↦
              cc (e, not-zero_of_nonpos (degree m sid) (All-elem _ (base ++ queue) sid v.spent h))
        ]

        lowered :
            is_zero (pred_ℤ (degree m sid)) ≡ true
            → is_nonpos (degree (insert sid (pred_ℤ (degree m sid)) m) sid) ≡ true
        lowered e = rw (degree-insert, eq_refl) (is_zero-nonpos (pred_ℤ (degree m sid)) e)

    relax_dep-IsFrontier :
        (id dep : String) (f : Frontier)
        → IsFrontier f.in_degree f.queue
        → IsFrontier (relax_dep id sid dep f).in_degree (relax_dep id sid dep f).queue
    unfolding relax_dep
    relax_dep-IsFrontier id dep f v = elim (Bool-cases (dep == id)) [
      | inl e ↦ rw e (lower-IsFrontier f.in_degree f.queue v)
      | inr e ↦ rw e v
    ]

    relax_deps-IsFrontier :
        (id : String) (deps : List String) (f : Frontier)
        → IsFrontier f.in_degree f.queue
        → IsFrontier (relax_deps id sid deps f).in_degree (relax_deps id sid deps f).queue
    unfolding relax_deps
    relax_deps-IsFrontier id [] f v = v
    relax_deps-IsFrontier id (dep ∷ deps) f v =
        relax_deps-IsFrontier id deps (relax_dep id sid dep f) (relax_dep-IsFrontier id dep f v)

  pub relax_steps-IsFrontier :
      (id : String) (ss : List WorkflowStep) (f : Frontier)
      → All (λ k. elem ids k ≡ true) (step_ids ss)
      → IsFrontier f.in_degree f.queue
      → IsFrontier (relax_steps id ss f).in_degree (relax_steps id ss f).queue
  unfolding relax_steps
  relax_steps-IsFrontier id [] f h v = v
  relax_steps-IsFrontier id (s ∷ ss) f h v =
      relax_steps-IsFrontier id ss (relax_deps id s.id s.depends_on f) h.1
        (relax_deps-IsFrontier s.id h.0 id s.depends_on f v)

-- The number of ids taken and the fuel left stay above the number of ids.
drain-some :
    (fuel : ℕ) (steps : List WorkflowStep) (done : List String) (m : Map ℤ) (queue : List String)
    → length (step_ids steps) ≤ length done + fuel
    → IsFrontier (step_ids steps) done m queue
    → (ids : List String) × (drain fuel steps done m queue ≡ some ids)
unfolding drain
drain-some fuel steps done m [] h v = (done, refl)
drain-some zero steps done m (id ∷ rest) h v = absurd (
    omega (
      arith,
      length-append done (id ∷ rest),
      length-le_of_subset (done ++ id ∷ rest) (step_ids steps) v.once v.known,
    ))
drain-some (suc fuel) steps done m (id ∷ rest) h v =
    drain-some fuel steps (done ++ id ∷ []) next.in_degree next.queue
      (omega (arith, length-append done (id ∷ [])))
      (relax_steps-IsFrontier (step_ids steps) (done ++ id ∷ []) id steps
        (record { in_degree = m; queue = rest }) (All-elem_self (step_ids steps)) (shift v))
  where
    next : Frontier
    next = relax_steps id steps (record { in_degree = m; queue = rest })

    shift :
        IsFrontier (step_ids steps) done m (id ∷ rest)
        → IsFrontier (step_ids steps) (done ++ id ∷ []) m rest
    shift v = record {
      once = rw append_assoc v.once;
      spent = rw append_assoc v.spent;
      known = rw append_assoc v.known;
    }

elem-keys-count_deps :
    (m : Map ℤ) (ss : List WorkflowStep) (k : String)
    → elem (keys (count_deps m ss)) k ≡ (elem (keys m) k || elem (step_ids ss) k)
unfolding count_deps
elem-keys-count_deps m [] k = ground arith
elem-keys-count_deps m (s ∷ ss) k = ground (
  arith,
  elem-keys-count_deps (insert s.id (pos (length s.depends_on)) m) ss k,
  elem-keys-insert s.id k (pos (length s.depends_on)) m,
)

Nodup-keys-count_deps :
    (m : Map ℤ) (ss : List WorkflowStep) → Nodup (keys m) → Nodup (keys (count_deps m ss))
unfolding count_deps
Nodup-keys-count_deps m [] h = h
Nodup-keys-count_deps m (s ∷ ss) h =
    Nodup-keys-count_deps (insert s.id (pos (length s.depends_on)) m) ss
      (Nodup-keys-insert s.id (pos (length s.depends_on)) m h)

pub elem-initial_queue :
    (m : Map ℤ) (ks : List String) (k : String)
    → elem (initial_queue m ks) k ≡ (elem ks k && is_zero (degree m k))
unfolding initial_queue
elem-initial_queue m [] k = refl
elem-initial_queue m (j ∷ ks) k = ground (arith, elem-initial_queue m ks k, eq_iff j k)

Nodup-initial_queue : (m : Map ℤ) (ks : List String) → Nodup ks → Nodup (initial_queue m ks)
unfolding initial_queue
Nodup-initial_queue m [] h = tt
Nodup-initial_queue m (j ∷ ks) h =
    ground (arith, Nodup-initial_queue m ks h.1, elem-initial_queue m ks j)

module _ (range : RangeOrder) (def : WorkflowDef) where
  abbrev pub degrees : Map ℤ
  degrees = count_deps [] def.steps

  abbrev pub start : List String
  start = initial_queue degrees (range.order (keys degrees))

  pub elem-start :
      (k : String) → elem start k ≡ (elem (step_ids def.steps) k && is_zero (degree degrees k))
  elem-start k = rw (elem-initial_queue, range.elem-order, elem-keys-count_deps)

  pub start-IsFrontier : IsFrontier (step_ids def.steps) [] degrees start
  start-IsFrontier = record {
    once =
        Nodup-initial_queue degrees _ (range.order-Nodup _ (Nodup-keys-count_deps [] def.steps tt));
    spent =
        All-intro _ start
          (λ k h. is_zero-nonpos (degree degrees k) (and_right _ _ (rw elem-start at h)));
    known = All-intro _ start (λ k h. and_left _ _ (rw elem-start at h));
  }

pub drain-start :
    (range : RangeOrder) (def : WorkflowDef)
    → (ids : List String) × (drain
          (length def.steps)
          def.steps
          []
          (degrees range def)
          (start range def)
        ≡ some ids)
drain-start range def =
    drain-some (length def.steps) def.steps [] (degrees range def) (start range def)
      (omega (arith, length-step_ids def.steps)) (start-IsFrontier range def)

-- For every definition, valid or not, and every order in which the map is ranged over, the loop
-- ends within the fuel that `topological_sort` gives it: there is a result.
pub topological_sort_terminates :
    (range : RangeOrder) (def : WorkflowDef)
    → (r : Result SortError (List (Option WorkflowStep))) × (topological_sort range def ≡ some r)
unfolding topological_sort
topological_sort_terminates range def =
    let (ids, e) = drain-start range def in
    (
      check_length (length def.steps) (fetch (index_steps [] def.steps) ids),
      rw (e, topological_sort),
    )
