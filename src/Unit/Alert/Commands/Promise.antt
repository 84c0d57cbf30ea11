-- ===== src/Unit/Alert/Commands/Promise.antt =====
-- What the alert commands (pkg/unit/alert/commands.go) do to an alert.
use ai_inference_managed_by.Base.{String, false, ◌≡◌, some, ◌==◌, if◌then◌else◌, arith}
use ai_inference_managed_by.Base.Int.{ℤ}
use ai_inference_managed_by.Base.Map.{lookup, lookup-insert}
use ai_inference_managed_by.Base.Result.{ok}
use ai_inference_managed_by.Workflow.Types.{object, field, text, end}
use ai_inference_managed_by.Workflow.Resolver.{get_field}
use ai_inference_managed_by.Unit.Execution.{done, success}
use ai_inference_managed_by.Unit.Alert.{AlertEntry, AlertStore, get_alert, update_alert}
use ai_inference_managed_by.Unit.Alert.Commands.{
  acknowledged, resolved, touch_alert, execute_acknowledge, execute_resolve,
}

-- On an alert that the store has under its own id, which is not empty, both commands succeed whatever
-- the alert's status is, a resolved alert's too. Acknowledging makes the alert acknowledged and keeps
-- the time at which it was resolved; resolving makes it resolved and keeps the other time. The other
-- alerts are as they were.
pub acknowledge-any :
    (now : ℤ) (alert : AlertEntry) (s : AlertStore) (k : String)
    → (alert.id == "") ≡ false
    → lookup alert.id s.alerts ≡ some alert
    → let input = object (field "alert_id" (text alert.id) end) in
      let a = execute_acknowledge now input s in
      let r = execute_resolve now input s in
      (a.0 ≡ done success)
      × (r.0 ≡ done success)
      × (get_alert k a.1 ≡ (if alert.id == k then ok (acknowledged now alert) else get_alert k s))
      × (get_alert k r.1 ≡ (if alert.id == k then ok (resolved now alert) else get_alert k s))
unfolding execute_acknowledge execute_resolve touch_alert get_alert update_alert get_field
acknowledge-any now alert s k ne h = (
  ground (arith, ne, h),
  ground (arith, ne, h),
  ground (arith, ne, h, lookup-insert alert.id k (acknowledged now alert) s.alerts),
  ground (arith, ne, h, lookup-insert alert.id k (resolved now alert) s.alerts),
)
