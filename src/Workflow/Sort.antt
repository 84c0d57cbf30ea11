-- ===== src/Workflow/Sort.antt =====
-- TopologicalSort of pkg/workflow/validator.go: Kahn's algorithm. A step pointer of the result is
-- `none` where the source would append a nil pointer. The proofs are in the modules below.
pub mod Fuel
pub mod Index
mod Relax
mod Loop
pub mod Correct
use ai_inference_managed_by.Base.{
  ℕ, zero, suc, ◌≡◌, refl, String, Bool, true, false, List, [], ◌∷◌, ◌++◌, Option, none, some, ◌==◌,
  eqb, if◌then◌else◌, length, elem, Nodup,
}
use ai_inference_managed_by.Base.Int.{ℤ, pos, pred_ℤ, is_zero}
use ai_inference_managed_by.Base.Map.{Map, lookup, insert, keys}
use ai_inference_managed_by.Base.Result.{Result, ok, err}
use ai_inference_managed_by.Workflow.Types.{WorkflowStep, WorkflowDef}

-- The order in which the Go runtime ranges over a map's keys: any order, each key once.
pub record RangeOrder : Type 0 where
  pub order : List String → List String
  pub order-Nodup : (ks : List String) → Nodup ks → Nodup (order ks)
  pub elem-order : (ks : List String) (k : String) → elem (order ks) k ≡ elem ks k

-- An order that exists: the list's own.
abbrev pub insertion_order : RangeOrder
insertion_order = record { order = λ ks. ks; order-Nodup = λ ks h. h; elem-order = λ ks k. refl }

-- The two variables that the inner loops change.
pub record Frontier : Type 0 where
  pub in_degree : Map ℤ
  pub queue : List String

-- m[k] of a map of integers: a missing key reads as zero
unfoldable pub degree : Map ℤ → String → ℤ
degree m k = elim (lookup k m) [ none ↦ pos 0 | some d ↦ d ]

-- stepMap: a later step replaces an earlier one with the same id
unfoldable pub index_steps : Map WorkflowStep → List WorkflowStep → Map WorkflowStep
index_steps m [] = m
index_steps m (s ∷ ss) = index_steps (insert s.id s m) ss

-- inDegree[step.ID] = len(step.DependsOn)
unfoldable pub count_deps : Map ℤ → List WorkflowStep → Map ℤ
count_deps m [] = m
count_deps m (s ∷ ss) = count_deps (insert s.id (pos (length s.depends_on)) m) ss

-- The ids of degree zero, in the order in which the map is ranged over.
unfoldable pub initial_queue : Map ℤ → List String → List String
initial_queue m [] = []
initial_queue m (k ∷ ks) =
    let rest = initial_queue m ks in if is_zero (degree m k) then k ∷ rest else rest

-- The body of the loop over `step.DependsOn`.
unfoldable pub relax_dep : String → String → String → Frontier → Frontier
relax_dep id sid dep f =
    if dep == id
    then (let d = pred_ℤ (degree f.in_degree sid) in
        record {
          in_degree = insert sid d f.in_degree;
          queue = if is_zero d then f.queue ++ sid ∷ [] else f.queue;
        })
    else f

unfoldable pub relax_deps : String → String → List String → Frontier → Frontier
relax_deps id sid [] f = f
relax_deps id sid (dep ∷ deps) f = relax_deps id sid deps (relax_dep id sid dep f)

unfoldable pub relax_steps : String → List WorkflowStep → Frontier → Frontier
relax_steps id [] f = f
relax_steps id (s ∷ ss) f = relax_steps id ss (relax_deps id s.id s.depends_on f)

-- `for len(queue) > 0`: the ids in the order in which they are taken, or `none` without fuel.
unfoldable pub drain :
    ℕ → List WorkflowStep → List String → Map ℤ → List String → Option (List String)
drain fuel steps done m [] = some done
drain zero steps done m (id ∷ rest) = none
drain (suc fuel) steps done m (id ∷ rest) =
    let next = relax_steps id steps (record { in_degree = m; queue = rest }) in
    drain fuel steps (done ++ id ∷ []) next.in_degree next.queue

pub data SortError : Type 0 where
  cycle_detected : SortError

unfoldable pub fetch : Map WorkflowStep → List String → List (Option WorkflowStep)
fetch m [] = []
fetch m (id ∷ ids) = lookup id m ∷ fetch m ids

abbrev pub check_length :
    ℕ → List (Option WorkflowStep) → Result SortError (List (Option WorkflowStep))
check_length n sorted = if eqb (length sorted) n then ok sorted else err cycle_detected

-- One round for each step is enough fuel.
unfoldable pub topological_sort :
    RangeOrder → WorkflowDef → Option (Result SortError (List (Option WorkflowStep)))
topological_sort range def =
    let m = count_deps [] def.steps in
    elim (drain (length def.steps) def.steps [] m (initial_queue m (range.order (keys m)))) [
      | none ↦ none
      | some ids ↦ some (check_length (length def.steps) (fetch (index_steps [] def.steps) ids))
    ]
