-- ===== src/Unit/Alert.antt =====
-- Alert rules and alerts: pkg/unit/alert/types.go and the in-memory store of
-- pkg/unit/alert/store.go. The mutex makes each method one step. The clock and the fresh id that
-- uuid.New gives are arguments of the operations that use them.
pub mod Laws
pub mod Commands
use ai_inference_managed_by.Base.Result.{ok, err, Result}
use ai_inference_managed_by.Base.Map.{delete, lookup, values, is_some, insert, Map}
use ai_inference_managed_by.Base.{
  length, ◌&&◌, not, ◌||◌, Bool, ℕ, String, List, [], ◌∷◌, Option, none, some, ◌==◌, if◌then◌else◌,
}
use ai_inference_managed_by.Unit.Page.{page}
use ai_inference_managed_by.Workflow.Types.{Fields}
use ai_inference_managed_by.Base.Int.{ℤ}

-- AlertSeverity and AlertStatus are Go strings; a filter uses the empty one.
pub record AlertRule : Type 0 where
  pub id : String
  pub name : String
  pub condition : String
  pub severity : String
  pub channels : List String
  pub cooldown : ℤ
  pub enabled : Bool
  pub created_at : ℤ
  pub updated_at : ℤ

pub record AlertEntry : Type 0 where
  pub id : String
  pub rule_id : String
  pub rule_name : String
  pub severity : String
  pub status : String
  pub message : String
  pub metrics : Option Fields
  pub triggered_at : ℤ
  pub acknowledged_at : Option ℤ
  pub resolved_at : Option ℤ

pub record AlertFilter : Type 0 where
  pub rule_id : String
  pub status : String
  pub severity : String
  pub limit : ℤ
  pub offset : ℤ

pub data AlertError : Type 0 where
  rule_not_found rule_exists alert_not_found : AlertError

pub record AlertStore : Type 0 where
  pub rules : Map AlertRule
  pub alerts : Map AlertEntry

abbrev pub new_alert_store : AlertStore
new_alert_store = record { rules = []; alerts = [] }

-- if id == "" { id = uuid.New().String() }
abbrev pub id_or : String → String → String
id_or fresh id = if id == "" then fresh else id

unfoldable pub create_rule : String → ℤ → AlertRule → AlertStore → Option AlertError × AlertStore
create_rule fresh now rule s =
    let id = id_or fresh rule.id in
    if is_some (lookup id s.rules) then (some rule_exists, s) else (
      none,
      record s {
        rules = insert id (record rule { id = id; created_at = now; updated_at = now }) s.rules;
      },
    )

unfoldable pub get_rule : String → AlertStore → Result AlertError AlertRule
get_rule id s = elim (lookup id s.rules) [ none ↦ err rule_not_found | some rule ↦ ok rule ]

unfoldable pub list_rules : Bool → List AlertRule → List AlertRule
list_rules enabled_only [] = []
list_rules enabled_only (rule ∷ rules) =
    let rest = list_rules enabled_only rules in
    if enabled_only && not rule.enabled then rest else rule ∷ rest

unfoldable pub update_rule : ℤ → AlertRule → AlertStore → Option AlertError × AlertStore
update_rule now rule s =
    if is_some (lookup rule.id s.rules)
    then (none, record s { rules = insert rule.id (record rule { updated_at = now }) s.rules })
    else (some rule_not_found, s)

unfoldable pub delete_rule : String → AlertStore → Option AlertError × AlertStore
delete_rule id s =
    if is_some (lookup id s.rules)
    then (none, record s { rules = delete id s.rules })
    else (some rule_not_found, s)

-- CreateAlert does not look whether the id is taken.
unfoldable pub create_alert : String → AlertEntry → AlertStore → AlertStore
create_alert fresh alert s =
    let id = id_or fresh alert.id in
    record s { alerts = insert id (record alert { id = id }) s.alerts }

unfoldable pub get_alert : String → AlertStore → Result AlertError AlertEntry
get_alert id s = elim (lookup id s.alerts) [ none ↦ err alert_not_found | some alert ↦ ok alert ]

-- The three `continue` guards of the loop of ListAlerts.
abbrev pub is_skipped : AlertFilter → AlertEntry → Bool
is_skipped f a =
    (not (f.rule_id == "") && not (a.rule_id == f.rule_id))
    || (not (f.status == "") && not (a.status == f.status))
    || (not (f.severity == "") && not (a.severity == f.severity))

unfoldable pub select_alerts : AlertFilter → List AlertEntry → List AlertEntry
select_alerts f [] = []
select_alerts f (a ∷ more) =
    let rest = select_alerts f more in if is_skipped f a then rest else a ∷ rest

-- The page and the total; `none` is a panic.
unfoldable pub list_alerts : AlertFilter → AlertStore → Option (List AlertEntry × ℕ)
list_alerts f s =
    let result = select_alerts f (values s.alerts) in
    elim (page f.offset f.limit result) [ none ↦ none | some window ↦ some (window, length result) ]

unfoldable pub update_alert : AlertEntry → AlertStore → Option AlertError × AlertStore
update_alert alert s =
    if is_some (lookup alert.id s.alerts)
    then (none, record s { alerts = insert alert.id alert s.alerts })
    else (some alert_not_found, s)

-- The loop of ListActiveAlerts.
unfoldable pub select_active : List AlertEntry → List AlertEntry
select_active [] = []
select_active (a ∷ more) =
    let rest = select_active more in
    if a.status == "firing" || a.status == "acknowledged" then a ∷ rest else rest

unfoldable pub list_active_alerts : AlertStore → List AlertEntry
unfolding select_active
list_active_alerts s = select_active (values s.alerts)

-- isValidSeverity
abbrev pub is_valid_severity : String → Bool
is_valid_severity s = s == "info" || s == "warning" || s == "critical"
