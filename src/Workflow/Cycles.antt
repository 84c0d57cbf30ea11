-- ===== src/Workflow/Cycles.antt =====
-- detectCycles of pkg/workflow/validator.go: depth-first search with a set of visited steps and a
-- recursion stack, both maps from ids to flags.
pub mod Fuel
pub mod Path
mod Visit
pub mod Verdict
use ai_inference_managed_by.Base.{
  ℕ, zero, suc, ◌+◌, ◌≡◌, refl, String, Bool, true, false, not, ◌&&◌, List, [], ◌∷◌, ◌++◌, Option,
  none, some, ◌==◌, if◌then◌else◌, length, leb,
}
use ai_inference_managed_by.Base.Map.{Map, lookup, insert}
use ai_inference_managed_by.Workflow.Types.{WorkflowStep, WorkflowDef}
use ai_inference_managed_by.Workflow.Sort.{index_steps}

pub record Search : Type 0 where
  pub visited : Map Bool
  pub rec_stack : Map Bool
  pub cycle_path : List String

-- m[k] of a map of flags: a missing key reads as false
unfoldable pub flag : Map Bool → String → Bool
flag m k = elim (lookup k m) [ none ↦ false | some b ↦ b ]

-- path[:len(path)-1]
abbrev pub drop_last : List String → List String
drop_last [] = []
drop_last (x ∷ []) = []
drop_last (x ∷ y ∷ rest) = x ∷ drop_last (y ∷ rest)

unfoldable pub enter : String → Search → Search
enter id st = record {
  visited = insert id true st.visited;
  rec_stack = insert id true st.rec_stack;
  cycle_path = st.cycle_path ++ id ∷ [];
}

unfoldable pub leave : String → Search → Search
leave id st = record st {
  rec_stack = insert id false st.rec_stack;
  cycle_path = drop_last st.cycle_path;
}

-- The result of `dfs`: whether a cycle was found, and the maps; `none` without fuel.
abbrev pub Outcome : Type 0
Outcome = Option (Bool × Search)

-- The loop over `step.DependsOn` and what follows it, with `visit` for the recursive call.
unfoldable pub visit_deps : (String → Search → Outcome) → String → List String → Search → Outcome
visit_deps visit id [] st = some (false, leave id st)
visit_deps visit id (dep ∷ deps) st =
    let skipped = visit_deps visit id deps st in
    if not (flag st.visited dep)
    then elim (visit dep st) [
      | none ↦ none
      | some (found, st') ↦ elim found [
        | true ↦ some (true, st')
        | false ↦ visit_deps visit id deps st'
      ]
    ]
    else if flag st.rec_stack dep
    then some (true, record st { cycle_path = st.cycle_path ++ dep ∷ [] })
    else skipped

-- dfs
unfoldable pub visit : ℕ → Map WorkflowStep → String → Search → Outcome
unfolding enter
visit zero m id st = none
visit (suc fuel) m id st = elim (lookup id m) [
  | none ↦ some (false, enter id st)
  | some s ↦ visit_deps (visit fuel m) id s.depends_on (enter id st)
]

pub data CycleError : Type 0 where
  circular_dependency : List String → CycleError
  circular_dependency_involving : String → CycleError

abbrev pub last_or : String → List String → String
last_or d [] = d
last_or d (x ∷ xs) = last_or x xs

-- The loop that cuts the path at the second occurrence of its last id.
unfoldable pub clean_path : String → List String → List String → List String
clean_path start clean [] = clean
clean_path start clean (id ∷ ids) =
    let rest = clean_path start (clean ++ id ∷ []) ids in
    if id == start && leb 1 (length clean) then clean else rest

unfoldable pub cycle_error : String → List String → CycleError
unfolding clean_path
cycle_error id path =
    if leb 2 (length path)
    then circular_dependency (clean_path (last_or "" path) [] path)
    else circular_dependency_involving id

-- The loop over all steps.
unfoldable pub search_from :
    ℕ → Map WorkflowStep → List WorkflowStep → Search → Option (Option CycleError)
unfolding cycle_error
search_from fuel m [] st = some none
search_from fuel m (s ∷ ss) st =
    let skipped = search_from fuel m ss st in
    if not (flag st.visited s.id)
    then elim (visit fuel m s.id (record st { cycle_path = [] })) [
      | none ↦ none
      | some (found, st') ↦ elim found [
        | true ↦ some (some (cycle_error s.id st'.cycle_path))
        | false ↦ search_from fuel m ss st'
      ]
    ]
    else skipped

abbrev pub no_search : Search
no_search = record { visited = []; rec_stack = []; cycle_path = [] }

-- The depth of the recursion is at most the number of steps and one missing id.
unfoldable pub detect_cycles : WorkflowDef → Option (Option CycleError)
detect_cycles def =
    search_from (length def.steps + 1) (index_steps [] def.steps) def.steps no_search
