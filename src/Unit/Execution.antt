-- ===== src/Unit/Execution.antt =====
-- pkg/unit/events.go: what a command publishes about its execution, and the reading of its input that the
-- commands of pkg/unit share. Times and the correlation id are left out.
use ai_inference_managed_by.Base.{String, Bool, true, ℕ, List, [], ◌∷◌, Option, none, some}
use ai_inference_managed_by.Base.Int.{ℤ, pos, negsuc}
use ai_inference_managed_by.Base.Result.{Result, ok, err}
use ai_inference_managed_by.Unit.Errors.{GoError, wrapped}
use ai_inference_managed_by.Workflow.Types.{
  Value, Fields, scalar, text, array, object, null, boolean, int, field, end,
}
use ai_inference_managed_by.Workflow.Resolver.{get_field}

-- ExecutionEvent, one constructor for each event type; the texts are the domain and the unit's name.
pub data ExecutionEvent : Type 0 where
  started : String → String → Value → ExecutionEvent
  completed : String → String → Value → ExecutionEvent
  failed : String → String → GoError → ExecutionEvent

-- How the body of an Execute ends: it publishes one error and returns one that may wrap it, or it
-- gives an output.
pub data Ending : Type 0 where
  refused : GoError → GoError → Ending
  done : Value → Ending

abbrev pub refuse : GoError → Ending
refuse e = refused e e

-- ec.PublishFailed(err); return nil, fmt.Errorf(context + ": %w", err)
abbrev pub refuse_in : String → GoError → Ending
refuse_in context e = refused e (wrapped context e)

abbrev pub published : String → String → Value → Ending → List ExecutionEvent
published domain name input (refused e r) = started domain name input ∷ failed domain name e ∷ []
published domain name input (done output) =
    started domain name input ∷ completed domain name output ∷ []

abbrev pub returned : Ending → Result GoError Value
returned (refused e r) = err r
returned (done output) = ok output

-- input.(map[string]any)
abbrev pub input_map : Value → Option Fields
input_map (scalar s) = none
input_map (text s) = none
input_map (array vs) = none
input_map (object m) = some m

abbrev pub as_text : Option Value → Option String
as_text none = none
as_text (some (scalar s)) = none
as_text (some (text t)) = some t
as_text (some (array vs)) = none
as_text (some (object m)) = none

abbrev pub as_bool : Option Value → Option Bool
as_bool none = none
as_bool (some (scalar null)) = none
as_bool (some (scalar (boolean b))) = some b
as_bool (some (scalar (int n))) = none
as_bool (some (text t)) = none
as_bool (some (array vs)) = none
as_bool (some (object m)) = none

-- A number of the input is a Go int here.
abbrev pub as_int : Option Value → Option ℤ
as_int none = none
as_int (some (scalar null)) = none
as_int (some (scalar (boolean b))) = none
as_int (some (scalar (int n))) = some n
as_int (some (text t)) = none
as_int (some (array vs)) = none
as_int (some (object m)) = none

abbrev pub non_negative : Option ℤ → Option ℕ
non_negative none = none
non_negative (some (pos n)) = some n
non_negative (some (negsuc n)) = none

abbrev pub or_else {ℓ} : {A : Type ℓ} → A → Option A → A
or_else a none = a
or_else a (some b) = b

-- s, _ := m[key].(string)
abbrev pub get_string : Fields → String → String
get_string m key = or_else "" (as_text (get_field key m))

abbrev pub success : Value
success = object (field "success" (scalar (boolean true)) end)
