-- ===== src/Unit/Examples.antt =====
-- Registries, pipelines and alerts on which the theorems about pkg/unit are applied.
pub mod Commands
use ai_inference_managed_by.Unit.Resource.{
  delete_slot, update_slot, new_slot_store, create_slot, get_slot, ResourceSlot,
}
use ai_inference_managed_by.Unit.Resource.Laws.{get_slot-after}
use ai_inference_managed_by.Unit.Alert.{
  delete_rule, update_rule, new_alert_store, create_rule, select_alerts, get_rule, list_alerts,
  AlertStore, AlertRule, AlertFilter, AlertEntry,
}
use ai_inference_managed_by.Unit.Pipeline.{
  delete_pipeline, update_run, update_pipeline, create_run, create_pipeline, get_run, get_pipeline,
  Pipeline, PipelineStep, PipelineRun, MemoryStore,
}
use ai_inference_managed_by.Unit.Page.{slice, page_end, page-limited, page}
use ai_inference_managed_by.Base.{
  arith, Bool-cases, inl, inr, ◌<◌, ◌≤◌, ◌+◌, suc, All, sym, ap, Bool, ℕ, String, List, [], ◌∷◌,
  Option, none, some, true, false, not, if◌then◌else◌, ◌==◌, ◌↔◌, ◌≡◌, refl,
}
use ai_inference_managed_by.Unit.Registry.{
  get_command, new_registry, command_count, a_command, get, Units, unregister_command,
  register_command,
}
use ai_inference_managed_by.Unit.Registry.Laws.{
  add_command, add_query, drop_command, Call, IsValid, after_all, after_all-new_registry-IsValid,
  register_command-get, unregister_command-lookup,
}
use ai_inference_managed_by.Unit.Pipeline.Executor.Promise.{
  execute-IsFinished, idle_at, IsEnding, looped,
}
use ai_inference_managed_by.Unit.Pipeline.Executor.Keeps.{KeepsIn, HasRun}
use ai_inference_managed_by.Unit.Pipeline.Laws.{get_pipeline-after, get_run-after}
use ai_inference_managed_by.Unit.Alert.Laws.{get_rule-after, list_alerts-IsMatch, IsMatch}
use ai_inference_managed_by.Workflow.Types.{Value, text, array, object, nil, cons, field, end}
use ai_inference_managed_by.Unit.Schema.{
  Schema, Properties, schema, any_item, items_of, no_property, property, no_limits,
}
use ai_inference_managed_by.Unit.Schema.Laws.{
  Accepts, AllItems, HasFields, FitFields, validate_schema_iff,
}
use ai_inference_managed_by.Base.Int.{pos}
use ai_inference_managed_by.Base.Result.{ok}
use ai_inference_managed_by.Base.Map.{is_some, lookup, lookup-insert}
use ai_inference_managed_by.Unit.Pipeline.Executor.{execute, StepExecutor}

-- Units that are their own names.
abbrev pub named : Units
named = record {
  Command = String;
  Query = String;
  Resource = String;
  Factory = String;
  command_name = λ c. c;
  query_name = λ q. q;
  resource_uri = λ r. r;
  can_create = λ f uri. f == uri;
  create = λ f uri. some uri;
}

abbrev calls : List (Call named)
calls =
    add_command (some "model.create")
    ∷ add_command (some "model.create")
    ∷ add_query (some "model.get")
    ∷ drop_command "model.create"
    ∷ []

abbrev pub pipeline_step : String → List String → PipelineStep
pipeline_step id deps = record {
  id = id;
  name = id;
  type = "model.run";
  input = end;
  depends_on = deps;
}

abbrev pub pipeline : Pipeline
pipeline = record {
  id = "p";
  name = "p";
  steps = pipeline_step "a" [] ∷ pipeline_step "b" ("a" ∷ []) ∷ [];
  status = "running";
  config = none;
  created_at = pos 1;
  updated_at = pos 1;
}

abbrev pub pending_run : PipelineRun
pending_run = record {
  id = "r";
  pipeline_id = "p";
  status = "pending";
  input = none;
  step_results = [];
  error = "";
  started_at = pos 1;
  completed_at = none;
}

abbrev pub pipeline_store : MemoryStore
pipeline_store = record { pipelines = ("p", pipeline) ∷ []; runs = ("r", pending_run) ∷ [] }

abbrev pub echo : StepExecutor ℕ
echo = record { perform = λ type input w. (ok input, suc w) }

abbrev pub never : ℕ → Bool
never w = false

pipeline-named : (q : Pipeline) → lookup "p" pipeline_store.pipelines ≡ some q → q.id ≡ "p"
unfolding lookup
pipeline-named q e = ap (λ o. id_of o) (sym e)
  where
    id_of : Option Pipeline → String
    id_of none = "p"
    id_of (some p) = p.id

pipeline-has_run : is_some (lookup "r" pipeline_store.runs) ≡ true
unfolding lookup
pipeline-has_run = refl

-- A step that creates a pipeline.
abbrev creating : StepExecutor (MemoryStore × ℕ)
creating = record {
  perform = λ type input s.
      (ok input, ((create_pipeline (record pipeline { id = "other" }) s.0).1, suc s.1));
}

abbrev never_done : MemoryStore × ℕ → Bool
never_done s = false

creating-KeepsIn : KeepsIn (HasRun "r" "p") (some creating)
unfolding create_pipeline
creating-KeepsIn type input (s, n) h = elim (Bool-cases (is_some (lookup "other" s.pipelines))) [
  | inl there ↦ rw there h
  | inr new ↦ rw new (
    h.0,
    λ q e. h.1 q (
        ground
          (arith, e, lookup-insert "other" "p" (record pipeline { id = "other" }) s.pipelines)),
  )
]

execute-IsFinished_example :
    let r =
      (execute
        (some creating)
        never_done
        (pos 2)
        (pos 3)
        pipeline
        pending_run
        end
        pipeline_store
        0).0 in
    let steps =
      (looped
        (some creating)
        never_done
        (pos 2)
        (pos 3)
        pipeline
        pending_run
        end
        pipeline_store
        0).1.0 in
    (r.0 ≡ none)
    × ((q : PipelineRun) × (get_run "r" r.1 ≡ ok q)
        × (q.completed_at ≡ some (pos 3))
        × IsEnding pipeline.steps q)
    × ((k : String) → ("r" == k) ≡ false → get_run k r.1 ≡ get_run k steps)
    × ((k : String)
        → get_pipeline k r.1
          ≡ (if "p" == k then idle_at (pos 3) (get_pipeline k steps) else get_pipeline k steps))
execute-IsFinished_example =
    execute-IsFinished (some creating) never_done (pos 2) (pos 3) pipeline pending_run end
      pipeline_store 0 pipeline-has_run pipeline-named creating-KeepsIn

abbrev alert : String → String → AlertEntry
alert id status = record {
  id = id;
  rule_id = "hot";
  rule_name = "hot";
  severity = "critical";
  status = status;
  message = "";
  metrics = none;
  triggered_at = pos 0;
  acknowledged_at = none;
  resolved_at = none;
}

abbrev alert_store : AlertStore
alert_store = record {
  rules = [];
  alerts = ("1", alert "1" "firing") ∷ ("2", alert "2" "resolved") ∷ [];
}

abbrev firing : AlertFilter
firing = record { rule_id = ""; status = "firing"; severity = ""; limit = pos 10; offset = pos 0 }

firing-listed : list_alerts firing alert_store ≡ some (alert "1" "firing" ∷ [], 1)
unfolding list_alerts select_alerts page page_end slice
firing-listed = refl

abbrev numbers : List ℕ
numbers = 4 ∷ 5 ∷ 6 ∷ 7 ∷ []

abbrev same_text : Value → Value → Bool
same_text (text a) (text b) = a == b
same_text _ _ = false

abbrev any_match : String → String → Option Bool
any_match pattern s = some true

abbrev no_bytes : String → ℕ
no_bytes s = 0

abbrev string_schema : Schema
string_schema = schema "string" no_limits any_item no_property []

abbrev name_schema : Properties
name_schema = property "name" string_schema no_property

validate_schema_iff_example :
    let accepts = Accepts same_text no_bytes any_match in
    let m = field "name" (text "llama") end in
    let vs = cons (text "a") (cons (text "b") nil) in
    (accepts (schema "object" no_limits any_item name_schema ("name" ∷ [])) (object m)
      ↔ (HasFields ("name" ∷ []) m × FitFields accepts name_schema m))
    × (accepts
          (schema "array" no_limits (items_of string_schema) name_schema ("name" ∷ []))
          (array vs)
        ↔ AllItems (accepts string_schema) vs)
validate_schema_iff_example =
    validate_schema_iff same_text no_bytes any_match no_limits any_item name_schema ("name" ∷ [])
      (field "name" (text "llama") end) string_schema (cons (text "a") (cons (text "b") nil))
