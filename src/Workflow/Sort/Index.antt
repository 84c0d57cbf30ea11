-- ===== src/Workflow/Sort/Index.antt =====
-- `stepMap` of pkg/workflow/validator.go holds each step under its id, where the ids differ.
use ai_inference_managed_by.Base.{
  ◌≡◌, refl, String, List, [], ◌∷◌, none, arith, elem, false, Nodup, eq_iff, if◌then◌else◌,
}
use ai_inference_managed_by.Base.Map.{Map, insert, lookup, lookup-insert}
use ai_inference_managed_by.Workflow.Types.{WorkflowStep}
use ai_inference_managed_by.Workflow.Dsl.{step_ids, get_step_by_id}
use ai_inference_managed_by.Workflow.Sort.{index_steps}

lookup-index_steps :
    (m : Map WorkflowStep) (ss : List WorkflowStep) (id : String)
    → Nodup (step_ids ss)
    → lookup id (index_steps m ss)
      ≡ (if elem (step_ids ss) id then get_step_by_id id ss else lookup id m)
unfolding index_steps get_step_by_id
lookup-index_steps m [] id u = refl
lookup-index_steps m (s ∷ ss) id u = ground (
  arith,
  lookup-index_steps (insert s.id s m) ss id u.1,
  lookup-insert s.id id s m,
  eq_iff s.id id,
)

not_found :
    (ss : List WorkflowStep) (id : String)
    → elem (step_ids ss) id ≡ false
    → get_step_by_id id ss ≡ none
unfolding get_step_by_id
not_found [] id h = refl
not_found (s ∷ ss) id h = ground (arith, not_found ss id)

pub lookup-index :
    (ss : List WorkflowStep)
    → Nodup (step_ids ss)
    → (id : String) → lookup id (index_steps [] ss) ≡ get_step_by_id id ss
unfolding lookup
lookup-index ss u id = ground (arith, lookup-index_steps [] ss id u, not_found ss id)
