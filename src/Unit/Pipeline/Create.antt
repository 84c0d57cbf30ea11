-- ===== src/Unit/Pipeline/Create.antt =====
-- CreateCommand of pkg/unit/pipeline/commands.go, from the point where the input is a map. The clock and the
-- id that is drawn are arguments; `none` is a search of ValidateSteps that does not end.
pub mod Promise
use Prim.Native.String.{◌++◌ as append}
use ai_inference_managed_by.Base.{
  ℕ, suc, String, true, false, List, [], ◌∷◌, Option, none, some, ◌==◌, if◌then◌else◌,
}
use ai_inference_managed_by.Base.Int.{ℤ, pos}
use ai_inference_managed_by.Base.Result.{Result, ok, err}
use ai_inference_managed_by.Workflow.Types.{
  Value, Items, Fields, scalar, text, array, object, nil, cons, null, int, field, end,
}
use ai_inference_managed_by.Workflow.Resolver.{get_field}
use ai_inference_managed_by.Unit.Errors.{wrapped}
use ai_inference_managed_by.Unit.Execution.{Ending, done, refuse, refuse_in, or_else, get_string}
use ai_inference_managed_by.Unit.Pipeline.{Pipeline, PipelineStep, MemoryStore, create_pipeline}
use ai_inference_managed_by.Unit.Pipeline.Steps.{StepIssue, validate_steps}
use ai_inference_managed_by.Unit.Pipeline.Commands.{err_invalid_input, store_error, object_of}

-- steps.([]any); nothing stands for an empty list too
abbrev pub raw_steps : Option Value → Items
raw_steps none = nil
raw_steps (some (scalar x)) = nil
raw_steps (some (text t)) = nil
raw_steps (some (array vs)) = vs
raw_steps (some (object m)) = nil

-- fmt.Sprintf("%v") of a value, and of a list of issues.
module _ (format : Value → String) (describe : List StepIssue → String) where
  -- A missing key is nil.
  abbrev pub format_field : Fields → String → String
  format_field m key = format (or_else (scalar null) (get_field key m))

  abbrev pub format_all : Items → List String
  format_all nil = []
  format_all (cons v vs) = format v ∷ format_all vs

  abbrev pub parse_step : Fields → PipelineStep
  parse_step m = record {
    id = format_field m "id";
    name = format_field m "name";
    type = format_field m "type";
    input = or_else end (object_of (get_field "input" m));
    depends_on = format_all (raw_steps (get_field "depends_on" m));
  }

  -- The loop over the steps; an item that is no map is an error with its index.
  unfoldable pub parse_steps : ℕ → Items → Result ℕ (List PipelineStep)
  parse_steps i nil = ok []
  parse_steps i (cons v vs) =
      let rest = parse_steps (suc i) vs in
      elim (object_of (some v)) [
        | none ↦ err i
        | some m ↦ elim rest [ err j ↦ err j | ok steps ↦ ok (parse_step m ∷ steps) ]
      ]

  -- The end of Execute, when the steps are valid.
  unfoldable pub store_pipeline :
      String → ℤ → String → List PipelineStep → Option Fields → MemoryStore → Ending × MemoryStore
  unfolding create_pipeline
  store_pipeline fresh now name steps config s =
      let p : Pipeline = record {
        id = fresh;
        name = name;
        steps = steps;
        status = "idle";
        config = config;
        created_at = now;
        updated_at = now;
      } in
      let r = create_pipeline p s in
      elim (r.0) [
        | some e ↦ (refuse_in "create pipeline" (store_error e), r.1)
        | none ↦ (done (object (field "pipeline_id" (text fresh) end)), r.1)
      ]

  -- Execute, once the steps are read.
  unfoldable pub check_steps :
      String
      → ℤ
      → String
      → List PipelineStep
      → Option Fields
      → MemoryStore
      → Option (Ending × MemoryStore)
  unfolding validate_steps store_pipeline
  check_steps fresh now name steps config s = elim (validate_steps steps) [
    | none ↦ none
    | some (valid, issues) ↦ elim valid [
      | true ↦ some (store_pipeline fresh now name steps config s)
      | false ↦
          some (refuse (wrapped (append "invalid steps: " (describe issues)) err_invalid_input), s)
    ]
  ]

  unfoldable pub execute_create : String → ℤ → Fields → MemoryStore → Option (Ending × MemoryStore)
  unfolding parse_steps check_steps
  execute_create fresh now m s =
      let name = get_string m "name" in
      let config = object_of (get_field "config" m) in
      if name == ""
      then some (refuse (wrapped "name is required" err_invalid_input), s)
      else elim (parse_steps 0 (raw_steps (get_field "steps" m))) [
        | err i ↦ some (
          refuse (
              wrapped (append "invalid step at index " (format (scalar (int (pos i)))))
                err_invalid_input),
          s,
        )
        | ok [] ↦
            some (refuse (wrapped "steps is required and must be non-empty" err_invalid_input), s)
        | ok (step ∷ steps) ↦ check_steps fresh now name (step ∷ steps) config s
      ]
