-- ===== src/Unit/Pipeline/Steps.antt =====
-- ValidateSteps of pkg/unit/pipeline/executor.go, on fuel for its depth-first search.
pub mod Fuel
use ai_inference_managed_by.Base.{
  ℕ, zero, suc, String, Bool, true, false, List, [], ◌∷◌, ◌++◌, Option, none, some, ◌==◌, elem,
  remove, length, if◌then◌else◌,
}
use ai_inference_managed_by.Unit.Pipeline.{PipelineStep}

-- The issues, one constructor for each text.
pub data StepIssue : Type 0 where
  empty_id : StepIssue
  empty_type duplicate_id circular : String → StepIssue
  non_existent : String → String → StepIssue

abbrev pub add_issue : Bool → StepIssue → List StepIssue → List StepIssue
add_issue b issue rest = if b then issue ∷ rest else rest

-- The first loop, with the ids of the steps before.
unfoldable pub check_ids : List String → List PipelineStep → List StepIssue
check_ids seen [] = []
check_ids seen (step ∷ steps) =
    let rest = check_ids (step.id ∷ seen) steps in
    add_issue (step.id == "") empty_id (
      add_issue (step.type == "") (empty_type step.id)
        (add_issue (elem seen step.id) (duplicate_id step.id) rest))

abbrev pub ids_of : List PipelineStep → List String
ids_of [] = []
ids_of (step ∷ steps) = step.id ∷ ids_of steps

-- The second loop.
unfoldable pub check_deps : List String → String → List String → List StepIssue
check_deps ids id [] = []
check_deps ids id (dep ∷ deps) =
    let rest = check_deps ids id deps in if elem ids dep then rest else non_existent id dep ∷ rest

unfoldable pub check_all_deps : List String → List PipelineStep → List StepIssue
unfolding check_deps
check_all_deps ids [] = []
check_all_deps ids (step ∷ steps) =
    check_deps ids step.id step.depends_on ++ check_all_deps ids steps

-- The map of the steps that are marked as visited, and the issues.
pub record Walk : Type 0 where
  pub visited : List String
  pub issues : List StepIssue

abbrev pub Visited : Type 0
Visited = Option (Bool × Walk)

-- What follows a call, if it has found a cycle and if not.
abbrev pub after_call : Visited → (Walk → Visited) → (Walk → Visited) → Visited
after_call none on_found on_clear = none
after_call (some (true, w)) on_found on_clear = on_found w
after_call (some (false, w)) on_found on_clear = on_clear w

-- The loop over the dependencies of a step.
unfoldable pub visit_deps : (String → Walk → Visited) → String → List String → Walk → Visited
visit_deps visit id [] w = some (false, w)
visit_deps visit id (dep ∷ deps) w =
    after_call (visit dep w)
      (λ w'. some (true, record w' { issues = w'.issues ++ circular id ∷ [] }))
      (λ w'. visit_deps visit id deps w')

-- The loop over the steps, of which those with the id are looked at.
unfoldable pub visit_steps : (String → Walk → Visited) → String → List PipelineStep → Walk → Visited
unfolding visit_deps
visit_steps visit id [] w = some (false, w)
visit_steps visit id (step ∷ steps) w = elim (step.id == id) [
  | false ↦ visit_steps visit id steps w
  | true ↦
      after_call (visit_deps visit id step.depends_on w) (λ w'. some (true, w'))
        (λ w'. visit_steps visit id steps w')
]

unfoldable pub visit : ℕ → List PipelineStep → String → Walk → Visited
unfolding visit_steps
visit zero steps id w = none
visit (suc n) steps id w = elim (elem w.visited id) [
  | true ↦ some (true, w)
  | false ↦
      after_call (visit_steps (visit n steps) id steps (record w { visited = id ∷ w.visited }))
        (λ w'. some (true, w')) (λ w'. some (false, record w' { visited = remove id w'.visited }))
]

-- The third loop: each step is visited with a new map.
unfoldable pub visit_all :
    ℕ → List PipelineStep → List PipelineStep → List StepIssue → Option (List StepIssue)
unfolding visit
visit_all n steps [] issues = some issues
visit_all n steps (step ∷ rest) issues =
    elim (visit n steps step.id (record { visited = []; issues = issues })) [
      | none ↦ none
      | some (found, w) ↦ visit_all n steps rest w.issues
    ]

-- The verdict and the issues; the fuel is two more than the number of steps.
unfoldable pub validate_steps : List PipelineStep → Option (Bool × List StepIssue)
unfolding visit_all check_ids check_all_deps
validate_steps steps =
    elim (visit_all (suc (suc (length steps))) steps steps
      (check_ids [] steps ++ check_all_deps (ids_of steps) steps)) [
        | none ↦ none
        | some [] ↦ some (true, [])
        | some (issue ∷ issues) ↦ some (false, issue ∷ issues)
      ]
