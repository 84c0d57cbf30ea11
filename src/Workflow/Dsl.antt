-- ===== src/Workflow/Dsl.antt =====
-- pkg/workflow/dsl.go: parsing a definition and filling in its defaults. The YAML and JSON decoders
-- are third-party and standard-library code: they are parameters.
use Prim.Native.Char.{code}
use ai_inference_managed_by.Base.{
  ℕ, suc, ap, ◌≡◌, refl, length, ◌+◌, String, Bool, true, false, ◌&&◌, ◌||◌, List, [], ◌∷◌, map,
  Option, none, some, ◌==◌, leb, eqb, if◌then◌else◌,
}
use ai_inference_managed_by.Base.Int.{pos, lt_ℕ}
use ai_inference_managed_by.Base.Result.{Result, ok, err}
use ai_inference_managed_by.Workflow.Types.{fields_of, RetryConfig, WorkflowStep, WorkflowDef}

pub data DslError : Type 0 where
  empty_input invalid_format workflow_name_empty no_steps : DslError
  unsupported_format : String → DslError

abbrev pub normalize_retry : RetryConfig → RetryConfig
normalize_retry r = record {
  max_attempts = if lt_ℕ r.max_attempts 1 then pos 1 else r.max_attempts;
  delay_seconds = if lt_ℕ r.delay_seconds 0 then pos 0 else r.delay_seconds;
}

-- The body of the loop of normalizeWorkflowDef.
unfoldable pub normalize_step : WorkflowStep → WorkflowStep
normalize_step s = record s {
  input = some (fields_of s.input);
  on_failure = if s.on_failure == "" then "abort" else s.on_failure;
  retry = elim s.retry [ none ↦ none | some r ↦ some (normalize_retry r) ];
}

abbrev pub is_empty {ℓ} : {A : Type ℓ} → List A → Bool
is_empty [] = true
is_empty (x ∷ xs) = false

unfoldable pub normalize_workflow_def : WorkflowDef → Result DslError WorkflowDef
unfolding normalize_step
normalize_workflow_def def =
    if def.name == ""
    then err workflow_name_empty
    else if is_empty def.steps
    then err no_steps
    else ok (record def {
      config = some (fields_of def.config);
      output = some (fields_of def.output);
      steps = map normalize_step def.steps;
    })

-- strings.ToLower, compared with an ASCII word
abbrev lower : ℕ → ℕ
lower c = if leb b'A' c && leb c b'Z' then c + 32 else c

is_word : String → String → Bool
is_word String.[] String.[] = true
is_word String.[] (String.◌∷◌ d w) = false
is_word (String.◌∷◌ c s) String.[] = false
is_word (String.◌∷◌ c s) (String.◌∷◌ d w) = eqb (lower (code c)) (code d) && is_word s w

module _ (unmarshal_yaml unmarshal_json : List ℕ → Option WorkflowDef) where
  abbrev decode : (List ℕ → Option WorkflowDef) → List ℕ → Result DslError WorkflowDef
  decode unmarshal bytes = if is_empty bytes then err empty_input else elim (unmarshal bytes) [
    | none ↦ err invalid_format
    | some def ↦ normalize_workflow_def def
  ]

  unfoldable pub parse_yaml : List ℕ → Result DslError WorkflowDef
  parse_yaml bytes = decode unmarshal_yaml bytes

  unfoldable pub parse_json : List ℕ → Result DslError WorkflowDef
  parse_json bytes = decode unmarshal_json bytes

  unfoldable pub parse : List ℕ → String → Result DslError WorkflowDef
  unfolding parse_yaml parse_json is_word
  parse bytes format =
      if is_word format "yaml" || is_word format "yml"
      then parse_yaml bytes
      else if is_word format "json"
      then parse_json bytes
      else err (unsupported_format format)

-- GetStepByID: the first step with the id
unfoldable pub get_step_by_id : String → List WorkflowStep → Option WorkflowStep
get_step_by_id id [] = none
get_step_by_id id (s ∷ ss) = if s.id == id then some s else get_step_by_id id ss

-- StepIDs
abbrev pub step_ids : List WorkflowStep → List String
step_ids [] = []
step_ids (s ∷ ss) = s.id ∷ step_ids ss

pub length-step_ids : (ss : List WorkflowStep) → length (step_ids ss) ≡ length ss
length-step_ids [] = refl
length-step_ids (s ∷ ss) = ap suc (length-step_ids ss)
