-- ===== src/Workflow/Cycles/Fuel.antt =====
-- detectCycles (pkg/workflow/validator.go) ends: each nested call marks a step that was not marked.
use ai_inference_managed_by.Base.{
  ℕ, zero, suc, ◌+◌, ◌≤◌, ◌<◌, ◌≡◌, refl, String, Bool, true, false, List, [], ◌∷◌, ◌++◌, Option,
  none, some, ◌==◌, if◌then◌else◌, length, arith, elem, eq_iff, Bool-cases, Option-cases, ◌⊎◌, inl,
  inr,
}
use ai_inference_managed_by.Base.Map.{Map, lookup, insert, lookup-insert}
use ai_inference_managed_by.Workflow.Types.{WorkflowStep, WorkflowDef}
use ai_inference_managed_by.Workflow.Dsl.{step_ids, length-step_ids}
use ai_inference_managed_by.Workflow.Sort.{index_steps}
use ai_inference_managed_by.Workflow.Cycles.{
  Search, flag, enter, leave, Outcome, visit_deps, visit, search_from, CycleError, cycle_error,
  no_search, detect_cycles,
}

pub flag-insert :
    (k j : String) (b : Bool) (m : Map Bool)
    → flag (insert k b m) j ≡ (if k == j then b else flag m j)
unfolding flag
flag-insert k j b m = ground (arith, lookup-insert k j b m)

-- How many of the ids are not visited.
abbrev unseen : List String → Map Bool → ℕ
unseen [] v = 0
unseen (k ∷ ks) v = if flag v k then unseen ks v else suc (unseen ks v)

unseen-le :
    (ks : List String) (k : String) (v : Map Bool) → unseen ks (insert k true v) ≤ unseen ks v
unseen-le [] k v = omega arith
unseen-le (j ∷ ks) k v = ground (arith, flag-insert k j true v, unseen-le ks k v)

unseen-lt :
    (ks : List String) (k : String) (v : Map Bool)
    → elem ks k ≡ true
    → flag v k ≡ false
    → unseen ks (insert k true v) < unseen ks v
unseen-lt [] k v h e = absurd (cc)
unseen-lt (j ∷ ks) k v h e =
    ground
      (arith, flag-insert k j true v, unseen-le ks k v, unseen-lt ks k v, eq_iff j k, eq_iff k j)

module _ (ids : List String) where
  -- The call returns, and has not forgotten a visit.
  record Ends (st : Search) (o : Outcome) : Type 0 where
    found : Bool
    after : Search
    ends : o ≡ some (found, after)
    fewer : unseen ids after.visited ≤ unseen ids st.visited

  visit_deps-Ends :
      (visit : String → Search → Outcome) (id : String) (deps : List String) (st : Search)
      → ((dep : String) (s : Search)
          → unseen ids s.visited ≤ unseen ids st.visited
          → flag s.visited dep ≡ false
          → Ends s (visit dep s))
      → Ends st (visit_deps visit id deps st)
  unfolding visit_deps leave
  visit_deps-Ends visit id [] st call = record {
    found = false;
    after = leave id st;
    ends = refl;
    fewer = omega arith;
  }
  visit_deps-Ends visit id (dep ∷ deps) st call = elim (Bool-cases (flag st.visited dep)) [
    | inl old ↦ elim (Bool-cases (flag st.rec_stack dep)) [
      | inl r ↦ record {
        found = true;
        after = record st { cycle_path = st.cycle_path ++ dep ∷ [] };
        ends = rw (old, r);
        fewer = omega arith;
      }
      | inr r ↦ rw (old, r) (visit_deps-Ends visit id deps st call)
    ]
    | inr new ↦
        let e = call dep st (omega arith) new in
        next new e (
          visit_deps-Ends visit id deps e.after
            (λ d s fewer fresh. call d s (omega (arith, e.fewer)) fresh))
  ]
    where
      next :
          flag st.visited dep ≡ false
          → (e : Ends st (visit dep st)) → Ends e.after (visit_deps visit id deps e.after)
          → Ends st (visit_deps visit id (dep ∷ deps) st)
      next new e rest = elim (Bool-cases e.found) [
        | inl t ↦ record {
          found = true;
          after = e.after;
          ends = ground (arith, new, e.ends, t);
          fewer = e.fewer;
        }
        | inr f ↦ record {
          found = rest.found;
          after = rest.after;
          ends = ground (arith, new, e.ends, f, rest.ends);
          fewer = omega (arith, e.fewer, rest.fewer);
        }
      ]

  visit-Ends :
      (fuel : ℕ) (m : Map WorkflowStep) (id : String) (st : Search)
      → ((k : String) (s : WorkflowStep) → lookup k m ≡ some s → elem ids k ≡ true)
      → unseen ids st.visited < fuel
      → flag st.visited id ≡ false
      → Ends st (visit fuel m id st)
  unfolding visit
  visit-Ends zero m id st known lt new = elim lt [ ]
  visit-Ends (suc fuel) m id st known lt new = elim (Option-cases (lookup id m)) [
    | inl e ↦ record {
      found = false;
      after = enter id st;
      ends = rw (e, visit);
      fewer = unseen-le ids id st.visited;
    }
    | inr (s, e) ↦
        let fewer = unseen-lt ids id st.visited (known id s e) new in
        step s e (
          visit_deps-Ends (visit fuel m) id s.depends_on (enter id st)
            (λ dep t le fresh. visit-Ends fuel m dep t known (omega (arith, fewer)) fresh))
  ]
    where
      step :
          (s : WorkflowStep)
          → lookup id m ≡ some s
          → Ends (enter id st) (visit_deps (visit fuel m) id s.depends_on (enter id st))
          → Ends st (visit (suc fuel) m id st)
      step s e r = record {
        found = r.found;
        after = r.after;
        ends = rw (e, visit) r.ends;
        fewer = omega (arith, r.fewer, unseen-le ids id st.visited);
      }

  search_from-ends :
      (fuel : ℕ) (m : Map WorkflowStep) (ss : List WorkflowStep) (st : Search)
      → ((k : String) (s : WorkflowStep) → lookup k m ≡ some s → elem ids k ≡ true)
      → unseen ids st.visited < fuel
      → (r : Option CycleError) × (search_from fuel m ss st ≡ some r)
  unfolding search_from
  search_from-ends fuel m [] st known lt = (none, refl)
  search_from-ends fuel m (s ∷ ss) st known lt = elim (Bool-cases (flag st.visited s.id)) [
    | inl old ↦ rw old (search_from-ends fuel m ss st known lt)
    | inr new ↦
        let e = visit-Ends fuel m s.id (record st { cycle_path = [] }) known lt new in
        next new e (search_from-ends fuel m ss e.after known (omega (arith, e.fewer)))
  ]
    where
      next :
          flag st.visited s.id ≡ false
          → (e : Ends
              (record st { cycle_path = [] })
              (visit fuel m s.id (record st { cycle_path = [] })))
          → ((r : Option CycleError) × (search_from fuel m ss e.after ≡ some r))
          → (r : Option CycleError) × (search_from fuel m (s ∷ ss) st ≡ some r)
      next new e (r, rest) = elim (Bool-cases e.found) [
        | inl t ↦ (some (cycle_error s.id e.after.cycle_path), ground (arith, new, e.ends, t))
        | inr f ↦ (r, ground (arith, new, e.ends, f, rest))
      ]

pub index_steps-known :
    (m : Map WorkflowStep) (ss : List WorkflowStep) (k : String) (s : WorkflowStep)
    → lookup k (index_steps m ss) ≡ some s
    → (elem (step_ids ss) k ≡ true) ⊎ (lookup k m ≡ some s)
unfolding index_steps
index_steps-known m [] k s h = inr h
index_steps-known m (t ∷ ts) k s h =
    ground (arith, index_steps-known (insert t.id t m) ts k s h, lookup-insert t.id k t m)

unseen-le-length : (ks : List String) (v : Map Bool) → unseen ks v ≤ length ks
unseen-le-length [] v = omega arith
unseen-le-length (k ∷ ks) v = ground (arith, unseen-le-length ks v)

-- For every definition the search for cycles ends: the fuel that `detect_cycles` gives is enough.
pub detect_cycles_terminates :
    (def : WorkflowDef) → (r : Option CycleError) × (detect_cycles def ≡ some r)
unfolding detect_cycles lookup
detect_cycles_terminates def =
    search_from-ends (step_ids def.steps) (length def.steps + 1) (index_steps [] def.steps)
      def.steps no_search (λ k s h. ground (arith, index_steps-known [] def.steps k s h))
      (omega (arith, unseen-le-length (step_ids def.steps) [], length-step_ids def.steps))
