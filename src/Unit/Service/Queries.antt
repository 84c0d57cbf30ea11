-- ===== src/Unit/Service/Queries.antt =====
-- GetQuery and ListQuery of pkg/unit/service/queries.go, with a store. The metrics of a running service, which
-- are floats that the provider gives, are left out of the answer; `none` is a slice expression out of bounds.
use ai_inference_managed_by.Base.{List, [], ◌∷◌, Option, none, some, ◌==◌, if◌then◌else◌}
use ai_inference_managed_by.Base.Int.{ℤ, pos, negsuc}
use ai_inference_managed_by.Base.Result.{ok, err}
use ai_inference_managed_by.Workflow.Types.{
  Value, Items, Fields, scalar, text, array, object, nil, cons, int, field, end,
}
use ai_inference_managed_by.Workflow.Resolver.{get_field}
use ai_inference_managed_by.Unit.Errors.{wrapped}
use ai_inference_managed_by.Unit.Execution.{
  Ending, done, refuse, refuse_in, input_map, as_int, or_else, get_string,
}
use ai_inference_managed_by.Unit.Skill.Queries.{texts}
use ai_inference_managed_by.Unit.Service.{
  ModelService, ServiceFilter, ServiceStore, get_service, list_services,
}
use ai_inference_managed_by.Unit.Service.Commands.{
  about, service_error, err_invalid_service_input, missing_key, positive_or,
}

abbrev pub service_fields : ModelService → Fields
service_fields svc = field "id" (text svc.id) (
    field "name" (text svc.name) (
      field "model_id" (text svc.model_id) (
        field "status" (text svc.status) (
          field "replicas" (scalar (int svc.replicas)) (
            field "endpoints" (array (texts svc.endpoints)) (
              field "resource_class" (text svc.resource_class)
                (field "active_replicas" (scalar (int svc.active_replicas)) end)))))))

unfoldable pub execute_get_service : Value → ServiceStore → Ending
unfolding get_service get_field
execute_get_service input s = elim (input_map input) [
  | none ↦ refuse (wrapped "invalid input type" err_invalid_service_input)
  | some m ↦
      let id = get_string m "service_id" in
      if id == "" then refuse (missing_key "service_id") else elim (get_service id s) [
        | err e ↦ refuse_in (about "get" id) (service_error e)
        | ok svc ↦ done (object (service_fields svc))
      ]
]

-- if offset, ok := toInt(…); ok && offset >= 0
abbrev pub non_negative_or : ℤ → Option ℤ → ℤ
non_negative_or d none = d
non_negative_or d (some (pos n)) = pos n
non_negative_or d (some (negsuc n)) = d

abbrev pub service_items : List ModelService → Items
service_items [] = nil
service_items (svc ∷ more) =
    cons
      (object (
        field "id" (text svc.id) (
          field "model_id" (text svc.model_id) (
            field "status" (text svc.status) (
              field "replicas" (scalar (int svc.replicas))
                (field "endpoints" (array (texts svc.endpoints)) end))))))
      (service_items more)

unfoldable pub execute_list_services : Value → ServiceStore → Option Ending
unfolding list_services get_field
execute_list_services input s =
    let m = or_else end (input_map input) in
    let filter : ServiceFilter = record {
      status = get_string m "status";
      model_id = get_string m "model_id";
      limit = positive_or (pos 100) (as_int (get_field "limit" m));
      offset = non_negative_or (pos 0) (as_int (get_field "offset" m));
    } in
    elim (list_services filter s) [
      | none ↦ none
      | some (services, total) ↦ some (
          done (
            object (
              field "services" (array (service_items services))
                (field "total" (scalar (int (pos total))) end))))
    ]
