-- ===== src/Unit/Pipeline/Create/Promise.antt =====
-- What CreateCommand (pkg/unit/pipeline/commands.go) lets into the store.
use ai_inference_managed_by.Base.{
  ℕ, String, Bool, true, false, ◌≡◌, refl, ◌⊎◌, inl, inr, List, [], ◌∷◌, Option, none, some, ◌==◌,
  Bool-cases, arith, eq_refl,
}
use ai_inference_managed_by.Base.Int.{ℤ}
use ai_inference_managed_by.Base.Map.{lookup, is_some, lookup-insert}
use ai_inference_managed_by.Base.Result.{Result, ok, err}
use ai_inference_managed_by.Workflow.Types.{Value, Fields, text, object, field, end}
use ai_inference_managed_by.Workflow.Resolver.{get_field}
use ai_inference_managed_by.Unit.Errors.{GoError, wrapped}
use ai_inference_managed_by.Unit.Execution.{Ending, done, refused, get_string}
use ai_inference_managed_by.Unit.Pipeline.{
  Pipeline, PipelineStep, MemoryStore, get_pipeline, create_pipeline, pipeline_already_exists,
}
use ai_inference_managed_by.Unit.Pipeline.Steps.{StepIssue, validate_steps}
use ai_inference_managed_by.Unit.Pipeline.Steps.Fuel.{Verdict, validate_steps-Verdict}
use ai_inference_managed_by.Unit.Pipeline.Commands.{store_error}
use ai_inference_managed_by.Unit.Pipeline.Create.{
  raw_steps, parse_steps, store_pipeline, check_steps, execute_create,
}

-- How the command ends: it returns, and either refuses and leaves the store as it was, or the store
-- had no pipeline under the id and now has one, which is idle and whose steps ValidateSteps accepts
-- without an issue. The runs stay.
abbrev pub Created : String → MemoryStore → Option (Ending × MemoryStore) → Type 0
Created fresh s none = ⊥
Created fresh s (some (ending, t)) =
    ((e : GoError) × (e' : GoError) × (ending ≡ refused e e') × (t ≡ s))
    ⊎ ((p : Pipeline) × (ending ≡ done (object (field "pipeline_id" (text fresh) end)))
        × (is_some (lookup fresh s.pipelines) ≡ false)
        × (get_pipeline fresh t ≡ ok p)
        × (p.status ≡ "idle")
        × (validate_steps p.steps ≡ some (true, []))
        × (t.runs ≡ s.runs))

module _ (format : Value → String) (describe : List StepIssue → String) (fresh : String) (now : ℤ)
    (s : MemoryStore) where
  store_pipeline-Created :
      (name : String) (steps : List PipelineStep) (config : Option Fields)
      → validate_steps steps ≡ some (true, [])
      → Created fresh s (some (store_pipeline format describe fresh now name steps config s))
  unfolding store_pipeline create_pipeline get_pipeline
  store_pipeline-Created name steps config h =
      let p : Pipeline = record {
        id = fresh;
        name = name;
        steps = steps;
        status = "idle";
        config = config;
        created_at = now;
        updated_at = now;
      } in
      elim (Bool-cases (is_some (lookup fresh s.pipelines))) [
        | inl e ↦ inl (
          store_error pipeline_already_exists,
          wrapped "create pipeline" (store_error pipeline_already_exists),
          ground (arith, e),
          ground (arith, e),
        )
        | inr e ↦ inr (
          p,
          ground (arith, e),
          e,
          ground (arith, e, lookup-insert fresh fresh p s.pipelines, eq_refl fresh),
          refl,
          h,
          ground (arith, e),
        )
      ]

  check_steps-Created :
      (name : String) (steps : List PipelineStep) (config : Option Fields)
      (o : Option (Bool × List StepIssue))
      → validate_steps steps ≡ o
      → Verdict o
      → Created fresh s (check_steps format describe fresh now name steps config s)
  unfolding check_steps
  check_steps-Created name steps config none e v = absurd v
  check_steps-Created name steps config (some (true, [])) e v =
      rw (e, check_steps) (store_pipeline-Created name steps config e)
  check_steps-Created name steps config (some (true, issue ∷ issues)) e v =
      let q : (issue ∷ issues) ≡ [] = v.0 refl in absurd (cc)
  check_steps-Created name steps config (some (false, issues)) e v =
      rw (e, check_steps) (inl (_, _, refl, refl))

  execute_create-parsed :
      (m : Fields) (r : Result ℕ (List PipelineStep))
      → (get_string m "name" == "") ≡ false
      → parse_steps format describe 0 (raw_steps (get_field "steps" m)) ≡ r
      → Created fresh s (execute_create format describe fresh now m s)
  unfolding execute_create
  execute_create-parsed m (err i) named e = rw (named, e, execute_create) (inl (_, _, refl, refl))
  execute_create-parsed m (ok []) named e = rw (named, e, execute_create) (inl (_, _, refl, refl))
  execute_create-parsed m (ok (step ∷ steps)) named e =
      rw (named, e, execute_create)
        (check_steps-Created _ (step ∷ steps) _ (validate_steps (step ∷ steps)) refl
          (validate_steps-Verdict (step ∷ steps)))

  -- CreateCommand always returns. Either it refuses and the store is as it was, or it answers with the
  -- id, which was free, and the store has an idle pipeline under it whose steps are valid.
  pub execute_create-Created :
      (m : Fields) → Created fresh s (execute_create format describe fresh now m s)
  unfolding execute_create
  execute_create-Created m = elim (Bool-cases (get_string m "name" == "")) [
    | inl e ↦ rw (e, execute_create) (inl (_, _, refl, refl))
    | inr named ↦
        execute_create-parsed m (parse_steps format describe 0 (raw_steps (get_field "steps" m)))
          named refl
  ]
