-- ===== src/Unit/Alert/Commands.antt =====
-- The commands of pkg/unit/alert/commands.go over the store of pkg/unit/alert/store.go. The clock and the
-- ids that are drawn are arguments.
--
-- GetRule and GetAlert give the store's own record, which the store has under its own id; the commands write to it only where no refusal
-- follows, so each of them changes the store in one step here.
pub mod Promise
use Prim.Native.String.{◌++◌ as append}
use ai_inference_managed_by.Base.{
  String, Bool, List, [], ◌∷◌, Option, none, some, ◌==◌, not, if◌then◌else◌, true,
}
use ai_inference_managed_by.Base.Int.{ℤ, pos}
use ai_inference_managed_by.Base.Result.{Result, ok, err}
use ai_inference_managed_by.Workflow.Types.{
  Value, Fields, Items, nil, cons, scalar, text, array, object, field, end,
}
use ai_inference_managed_by.Workflow.Resolver.{get_field}
use ai_inference_managed_by.Unit.Errors.{GoError, plain, unit_error, new_error}
use ai_inference_managed_by.Unit.Errors.Codes.{
  err_code_not_found, err_code_already_exists, err_code_invalid_input,
}
use ai_inference_managed_by.Unit.Execution.{
  Ending, done, refuse, refuse_in, input_map, as_text, as_bool, as_int, or_else, get_string,
  success,
}
use ai_inference_managed_by.Unit.Alert.{
  AlertRule, AlertEntry, AlertStore, AlertError, rule_not_found, rule_exists, alert_not_found,
  create_rule, get_rule, update_rule, delete_rule, get_alert, update_alert, is_valid_severity,
}

abbrev pub err_rule_not_found : GoError
err_rule_not_found = unit_error (new_error err_code_not_found "rule not found")

abbrev pub err_alert_not_found : GoError
err_alert_not_found = unit_error (new_error err_code_not_found "alert not found")

abbrev pub err_rule_exists : GoError
err_rule_exists = unit_error (new_error err_code_already_exists "rule already exists")

abbrev pub err_invalid_severity : GoError
err_invalid_severity = unit_error (new_error err_code_invalid_input "invalid severity")

abbrev pub err_invalid_rule_id : GoError
err_invalid_rule_id = unit_error (new_error err_code_invalid_input "invalid rule id")

abbrev pub err_invalid_alert_id : GoError
err_invalid_alert_id = unit_error (new_error err_code_invalid_input "invalid alert id")

abbrev pub alert_error : AlertError → GoError
alert_error rule_not_found = err_rule_not_found
alert_error rule_exists = err_rule_exists
alert_error alert_not_found = err_alert_not_found

-- How a call of the store ends a command.
abbrev pub settle : String → Value → Option AlertError × AlertStore → Ending × AlertStore
settle context output (none, s) = (done output, s)
settle context output (some e, s) = (refuse_in context (alert_error e), s)

-- The loop over the channels keeps the texts.
unfoldable pub channel_texts : Items → List String
channel_texts nil = []
channel_texts (cons v vs) =
    let rest = channel_texts vs in elim (as_text (some v)) [ none ↦ rest | some t ↦ t ∷ rest ]

abbrev pub channels_of : Option Value → List String
channels_of none = []
channels_of (some (scalar x)) = []
channels_of (some (text t)) = []
channels_of (some (array vs)) = channel_texts vs
channels_of (some (object m)) = []

-- getInt
abbrev pub get_int : Fields → String → ℤ
get_int m key = or_else (pos 0) (as_int (get_field key m))

-- CreateRuleCommand.Execute: the id that it draws is not empty, so the store draws none.
unfoldable pub add_rule : String → ℤ → Fields → AlertStore → Ending × AlertStore
unfolding create_rule channel_texts
add_rule fresh now m s =
    let severity = get_string m "severity" in
    let rule : AlertRule = record {
      id = fresh;
      name = get_string m "name";
      condition = get_string m "condition";
      severity = severity;
      channels = channels_of (get_field "channels" m);
      cooldown = get_int m "cooldown";
      enabled = true;
      created_at = pos 0;
      updated_at = pos 0;
    } in
    if get_string m "name" == ""
    then (refuse (plain "name is required"), s)
    else if get_string m "condition" == ""
    then (refuse (plain "condition is required"), s)
    else if not (is_valid_severity severity)
    then (refuse err_invalid_severity, s)
    else settle "create rule" (object (field "rule_id" (text fresh) end))
        (create_rule fresh now rule s)

-- if text, ok := m[key].(string); ok && text != ""
abbrev pub non_empty_or : String → String → String
non_empty_or old new = if new == "" then old else new

-- UpdateRuleCommand.Execute
unfoldable pub change_rule : ℤ → Fields → AlertStore → Ending × AlertStore
unfolding get_rule update_rule
change_rule now m s =
    let id = get_string m "rule_id" in
    if id == "" then (refuse err_invalid_rule_id, s) else elim (get_rule id s) [
      | err e ↦ (refuse_in "get rule" (alert_error e), s)
      | ok rule ↦
          let updated = record rule {
            name = non_empty_or rule.name (get_string m "name");
            condition = non_empty_or rule.condition (get_string m "condition");
            enabled = or_else rule.enabled (as_bool (get_field "enabled" m));
          } in
          settle "update rule" success (update_rule now updated s)
    ]

-- DeleteRuleCommand.Execute
unfoldable pub drop_rule : Fields → AlertStore → Ending × AlertStore
unfolding delete_rule
drop_rule m s =
    let id = get_string m "rule_id" in
    if id == ""
    then (refuse err_invalid_rule_id, s)
    else settle "delete rule" success (delete_rule id s)

-- What AcknowledgeCommand.Execute and ResolveCommand.Execute share: the alert is found, changed and put
-- back.
unfoldable pub touch_alert :
    String → (AlertEntry → AlertEntry) → Fields → AlertStore → Ending × AlertStore
unfolding get_alert update_alert
touch_alert context change m s =
    let id = get_string m "alert_id" in
    if id == "" then (refuse err_invalid_alert_id, s) else elim (get_alert id s) [
      | err e ↦ (refuse_in "get alert" (alert_error e), s)
      | ok alert ↦ settle context success (update_alert (change alert) s)
    ]

abbrev pub acknowledged : ℤ → AlertEntry → AlertEntry
acknowledged now alert = record alert { status = "acknowledged"; acknowledged_at = some now }

abbrev pub resolved : ℤ → AlertEntry → AlertEntry
resolved now alert = record alert { status = "resolved"; resolved_at = some now }

-- What every Execute of the file starts with.
abbrev pub with_map :
    (Fields → AlertStore → Ending × AlertStore) → Value → AlertStore → Ending × AlertStore
with_map body input s = elim (input_map input) [
  | none ↦ (refuse (plain "invalid input type: expected map[string]any"), s)
  | some m ↦ body m s
]

unfoldable pub execute_create_rule : String → ℤ → Value → AlertStore → Ending × AlertStore
unfolding add_rule
execute_create_rule fresh now = with_map (add_rule fresh now)

unfoldable pub execute_update_rule : ℤ → Value → AlertStore → Ending × AlertStore
unfolding change_rule
execute_update_rule now = with_map (change_rule now)

unfoldable pub execute_delete_rule : Value → AlertStore → Ending × AlertStore
unfolding drop_rule
execute_delete_rule = with_map drop_rule

unfoldable pub execute_acknowledge : ℤ → Value → AlertStore → Ending × AlertStore
unfolding touch_alert
execute_acknowledge now = with_map (touch_alert "acknowledge alert" (acknowledged now))

unfoldable pub execute_resolve : ℤ → Value → AlertStore → Ending × AlertStore
unfolding touch_alert
execute_resolve now = with_map (touch_alert "resolve alert" (resolved now))
