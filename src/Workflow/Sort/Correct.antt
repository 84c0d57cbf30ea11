-- ===== src/Workflow/Sort/Correct.antt =====
-- TopologicalSort of pkg/workflow/validator.go is correct and complete where the step ids differ.
use ai_inference_managed_by.Workflow.Sort.Index.{lookup-index}
use ai_inference_managed_by.Workflow.Schedule.{found-All, IsSchedule, id_of_found, All-found}
use ai_inference_managed_by.Base.{
  append-nil, All-elem, ℕ, suc, ◌≡◌, refl, String, true, List, [], ◌∷◌, ◌++◌, Option, map, none,
  some, arith, length, All, elem, Nodup, All-imp, sym, ap, subst, ◌∙◌, length-le_of_subset,
}
use ai_inference_managed_by.Workflow.Sort.{
  ℤ, RangeOrder, topological_sort, fetch, index_steps, check_length, SortError,
}
use mathlib.Core.List.{Perm}
use mathlib.Core.List.Perm
use ai_inference_managed_by.Base.Perm.{perm_of_subset}
use ai_inference_managed_by.Base.Map.{Map, lookup}
use ai_inference_managed_by.Base.Result.{Result, ok}
use ai_inference_managed_by.Workflow.Types.{WorkflowStep, WorkflowDef}
use ai_inference_managed_by.Workflow.Dsl.{step_ids, length-step_ids, get_step_by_id}
use ai_inference_managed_by.Workflow.Sort.Fuel.{start, degrees, drain-start}
use ai_inference_managed_by.Workflow.Sort.Relax.{remaining}
use ai_inference_managed_by.Workflow.Sort.Loop.{Inv, start-Inv, drain-Inv}

-- The steps in order, each one there, with its dependencies among the ids before it.
abbrev pub IsOrdered : List String → List (Option WorkflowStep) → Type 0
IsOrdered seen [] = Unit
IsOrdered seen (none ∷ rest) = ⊥
IsOrdered seen (some s ∷ rest) =
    All (λ d. elem seen d ≡ true) s.depends_on × IsOrdered (s.id ∷ seen) rest

fetch-IsOrdered :
    (m : Map WorkflowStep) (steps : List WorkflowStep) (seen ids : List String)
    → ((id : String) (s : WorkflowStep) → get_step_by_id id steps ≡ some s → lookup id m ≡ some s)
    → IsSchedule steps seen ids
    → IsOrdered seen (fetch m ids)
unfolding fetch
fetch-IsOrdered m steps seen [] same h = tt
fetch-IsOrdered m steps seen (id ∷ ids) same ((s, g, deps), h) =
    rw (same id s g)
      (deps, rw (id_of_found id steps s g) (fetch-IsOrdered m steps (id ∷ seen) ids same h))

fetch-map : (m : Map WorkflowStep) (ids : List String) → fetch m ids ≡ map (λ id. lookup id m) ids
unfolding fetch
fetch-map m [] = refl
fetch-map m (id ∷ ids) = rw (fetch-map m ids)

length-fetch : (m : Map WorkflowStep) (ids : List String) → length (fetch m ids) ≡ length ids
unfolding fetch
length-fetch m [] = refl
length-fetch m (id ∷ ids) = ap suc (length-fetch m ids)

remaining-done :
    (done deps : List String) → All (λ d. elem done d ≡ true) deps → remaining done deps ≡ 0
remaining-done done [] h = refl
remaining-done done (d ∷ ds) h = rw h.0 (remaining-done done ds h.1)

-- Once the queue is empty, all that some schedule lists has been taken.
schedule_taken :
    (steps : List WorkflowStep) (done seen ids : List String) (m : Map ℤ)
    → Inv steps done m []
    → All (λ k. elem done k ≡ true) seen
    → IsSchedule steps seen ids
    → All (λ k. elem done k ≡ true) ids
schedule_taken steps done seen [] m v old h = tt
schedule_taken steps done seen (id ∷ ids) m v old ((s, g, deps), h) =
    (taken, schedule_taken steps done (id ∷ seen) ids m v (taken, old) h)
  where
    taken : elem done id ≡ true
    taken =
        let t = All-found id _ steps s v.tracks g in
        let all_done =
          remaining-done done s.depends_on
            (All-imp _ _ s.depends_on (λ d e. All-elem _ seen d old e) deps) in
        subst (λ l. elem l id ≡ true) (append-nil done)
          (subst (λ k. elem (done ++ []) k ≡ true) (id_of_found id steps s g)
            (t.elem_eq ∙ rw all_done))

check_length-eq-ok :
    (n : ℕ) (l sorted : List (Option WorkflowStep))
    → ◌≡◌ {A = Option (Result SortError (List (Option WorkflowStep)))}
        (some (check_length n l))
        (some (ok sorted))
    → (l ≡ sorted) × (length l ≡ n)
check_length-eq-ok n l sorted h = ground arith

check_length-ok : (n : ℕ) (l : List (Option WorkflowStep)) → length l ≡ n → check_length n l ≡ ok l
check_length-ok n l h = ground arith

fetch-All :
    (m : Map WorkflowStep) (ss : List WorkflowStep)
    → All (λ s. lookup s.id m ≡ some s) ss
    → map (λ id. lookup id m) (step_ids ss) ≡ map some ss
fetch-All m [] h = refl
fetch-All m (s ∷ ss) h = cc (h.0, fetch-All m ss h.1)

module _ (range : RangeOrder) (def : WorkflowDef) (unique : Nodup (step_ids def.steps)) where
  -- What the loop takes, and what is known of it at its end.
  final :
      (ids : List String) × (topological_sort range def
        ≡ some (check_length (length def.steps) (fetch (index_steps [] def.steps) ids)))
      × (m : Map ℤ) × Inv def.steps ids m []
  unfolding topological_sort
  final =
      let (ids, e) = drain-start range def in
      let (m, v) =
        drain-Inv (length def.steps) def.steps [] (degrees range def) (start range def) ids unique
          (start-Inv range def unique) e in
      (ids, rw (e, topological_sort), m, v)

  found_is_indexed :
      (id : String) (s : WorkflowStep)
      → get_step_by_id id def.steps ≡ some s
      → lookup id (index_steps [] def.steps) ≡ some s
  found_is_indexed id s g = lookup-index def.steps unique id ∙ g

  taken_once : (ids : List String) (m : Map ℤ) → Inv def.steps ids m [] → Nodup ids
  taken_once ids m v = subst Nodup (append-nil ids) v.frontier.once

  taken_known :
      (ids : List String) (m : Map ℤ)
      → Inv def.steps ids m []
      → All (λ k. elem (step_ids def.steps) k ≡ true) ids
  taken_known ids m v = subst (All _) (append-nil ids) v.frontier.known

  taken-perm :
      (ids : List String) (m : Map ℤ)
      → Inv def.steps ids m []
      → length ids ≡ length def.steps
      → Perm (fetch (index_steps [] def.steps) ids) (map some def.steps)
  taken-perm ids m v e =
      rw
        (
          fetch-map,
          ← fetch-All (index_steps [] def.steps) def.steps
              (All-imp _ _ def.steps (λ s. found_is_indexed s.id s) (found-All def.steps unique)),
        )
        (Perm.map (λ id. lookup id (index_steps [] def.steps))
          (perm_of_subset ids (step_ids def.steps) (taken_once ids m v) (taken_known ids m v)
            (omega (arith, length-step_ids def.steps))))

  -- If the step ids are distinct and `topological_sort` returns a list, that is a permutation of the
  -- definition's steps, and every step stands behind all the steps that it depends on.
  pub topological_sort_sound :
      (sorted : List (Option WorkflowStep))
      → topological_sort range def ≡ some (ok sorted)
      → Perm sorted (map some def.steps) × IsOrdered [] sorted
  topological_sort_sound sorted e =
      let (ids, run, m, v) = final in
      let same = check_length-eq-ok (length def.steps) _ sorted (sym run ∙ e) in
      rw (← same.0) (
        taken-perm ids m v (omega (arith, same.1, length-fetch (index_steps [] def.steps) ids)),
        fetch-IsOrdered (index_steps [] def.steps) def.steps [] ids found_is_indexed v.schedule,
      )

  -- If the step ids are distinct and there is an order of all of them in which each step stands behind
  -- its dependencies, `topological_sort` returns a list.
  pub topological_sort_complete :
      (ids : List String)
      → IsSchedule def.steps [] ids
      → All (λ k. elem ids k ≡ true) (step_ids def.steps)
      → (sorted : List (Option WorkflowStep)) × (topological_sort range def ≡ some (ok sorted))
  topological_sort_complete ids h all =
      let (done, run, m, v) = final in
      (
        fetch (index_steps [] def.steps) done,
        run
            ∙ ap some (
                check_length-ok _ _ (
                  omega (
                    arith,
                    length-fetch (index_steps [] def.steps) done,
                    length-step_ids def.steps,
                    length-le_of_subset done (step_ids def.steps) (taken_once done m v)
                        (taken_known done m v),
                    length-le_of_subset (step_ids def.steps) done unique (
                        All-imp _ _ (step_ids def.steps)
                          (λ k listed.
                            All-elem _ ids k (schedule_taken def.steps done [] ids m v tt h) listed)
                          all),
                  ))),
      )
