-- ===== src/Unit/Service/Examples.antt =====
-- A provider and services on which the theorems about pkg/unit/service are applied.
use ai_inference_managed_by.Base.{
  ℕ, suc, String, false, ◌≡◌, refl, [], ◌∷◌, none, some, ◌==◌, ◌||◌, ◌&&◌, if◌then◌else◌, eqb,
}
use ai_inference_managed_by.Base.Int.{pos}
use ai_inference_managed_by.Base.Map.{lookup, is_some}
use ai_inference_managed_by.Base.Result.{ok, err}
use ai_inference_managed_by.Workflow.Types.{Fields, object, field, text, end}
use ai_inference_managed_by.Workflow.Resolver.{get_field}
use ai_inference_managed_by.Unit.Errors.{GoError, plain}
use ai_inference_managed_by.Unit.Execution.{done, refuse, refuse_in, success}
use ai_inference_managed_by.Unit.Service.{
  ModelService, ServiceStore, new_service_store, get_service, service_not_found,
}
use ai_inference_managed_by.Unit.Service.Commands.{
  ServiceProvider, service_error, err_service_already_running, about, in_status, execute_start,
  execute_stop, execute_delete_service,
}
use ai_inference_managed_by.Unit.Service.Outcome.{
  started_as, start_ending, stop_ending, start_outcome, stop_outcome, delete_outcome,
}
use ai_inference_managed_by.Unit.Service.Invariant.{
  AllServices, creates, starts, moves, apply_services, apply_services-AllServices,
}

abbrev out_of_memory : GoError
out_of_memory = plain "out of memory"

-- The world counts the calls; the second start fails.
abbrev docker : ServiceProvider ℕ
docker = record {
  create = λ model_id class replicas persistent w.
      (ok (record { id = "svc-1"; endpoints = []; config = none }), suc w);
  start = λ id async w. (if eqb w 1 then some out_of_memory else none, suc w);
  stop = λ id force w. (some out_of_memory, suc w);
  scale = λ id replicas w. (none, suc w);
  is_running = λ id w. false;
}

abbrev service : String → ModelService
service status = record {
  id = "svc-1";
  name = "service-svc-1";
  model_id = "llama";
  status = status;
  replicas = pos 1;
  resource_class = "medium";
  endpoints = [];
  active_replicas = pos 0;
  config = none;
  created_at = pos 0;
  updated_at = pos 0;
}

abbrev serving : String → ServiceStore
serving status = record { services = ("svc-1", service status) ∷ [] }

abbrev svc_1 : Fields
svc_1 = field "service_id" (text "svc-1") end

start_outcome_example :
    let asked = docker.start "svc-1" false 1 in
    let busy = "running" == "running" && docker.is_running "svc-1" 1 in
    let r = execute_start (some docker) (pos 9) (object svc_1) (serving "running") 1 in
    (r.0 ≡ (if busy then refuse err_service_already_running else start_ending "svc-1" asked.0))
    × (r.2 ≡ (if busy then 1 else asked.1))
    × (get_service "svc-1" r.1 ≡ (
        if busy
        then get_service "svc-1" (serving "running")
        else if "svc-1" == "svc-1"
        then ok (in_status (started_as asked.0) (pos 9) (service "running"))
        else get_service "svc-1" (serving "running")))
unfolding lookup get_field
start_outcome_example =
    start_outcome docker (pos 9) "svc-1" "svc-1" (service "running") svc_1 (serving "running") 1
      refl refl refl refl

stop_outcome_example :
    let asked = docker.stop "svc-1" false 1 in
    let r = execute_stop (some docker) (pos 9) (object svc_1) (serving "failed") 1 in
    (r.0 ≡ stop_ending "svc-1" ("failed" == "running") asked.0)
    × (r.2 ≡ (if "failed" == "stopped" then 1 else asked.1))
    × (get_service "svc-1" r.1 ≡ (
        if "failed" == "stopped" || ("failed" == "running" && is_some asked.0)
        then get_service "svc-1" (serving "failed")
        else if "svc-1" == "svc-1"
        then ok (in_status "stopped" (pos 9) (service "failed"))
        else get_service "svc-1" (serving "failed")))
unfolding lookup get_field
stop_outcome_example =
    stop_outcome docker (pos 9) "svc-1" "svc-1" (service "failed") svc_1 (serving "failed") 1 refl
      refl refl refl refl

delete_outcome_example :
    let r = execute_delete_service {W = ℕ} (object svc_1) (serving "running") 1 in
    let t = execute_stop (some docker) (pos 9) (object svc_1) r.1 r.2 in
    (r.0 ≡ done success)
    × (r.2 ≡ 1)
    × (get_service "svc-1" r.1 ≡ (
        if "svc-1" == "svc-1"
        then err service_not_found
        else get_service "svc-1" (serving "running")))
    × (t ≡ (refuse_in (about "get" "svc-1") (service_error service_not_found), r.1, 1))
unfolding lookup get_field
delete_outcome_example =
    delete_outcome docker (pos 9) "svc-1" "svc-1" (service "running") svc_1 (serving "running") 1
      refl refl refl

apply_services-AllServices_example :
    AllServices
      (apply_services
        (some docker)
        (creates (pos 1) (object (field "model_id" (text "llama") end))
          ∷ starts (pos 2) (object svc_1)
          ∷ moves 7
          ∷ [])
        (new_service_store, 0)).0
apply_services-AllServices_example =
    apply_services-AllServices (some docker)
      (creates (pos 1) (object (field "model_id" (text "llama") end))
        ∷ starts (pos 2) (object svc_1)
        ∷ moves 7
        ∷ [])
      0
