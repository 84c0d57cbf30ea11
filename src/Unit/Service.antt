-- ===== src/Unit/Service.antt =====
-- Model services: pkg/unit/service/types.go and the in-memory store of store.go. The mutex makes each method
-- one step. The metrics, which are floats, are left out.
pub mod Commands
pub mod Queries
pub mod Outcome
pub mod Invariant
pub mod Examples
use ai_inference_managed_by.Base.{
  String, Bool, not, ◌&&◌, ◌||◌, ℕ, List, [], ◌∷◌, Option, none, some, ◌==◌, length, if◌then◌else◌,
}
use ai_inference_managed_by.Base.Int.{ℤ}
use ai_inference_managed_by.Base.Map.{Map, lookup, insert, delete, values, is_some}
use ai_inference_managed_by.Base.Result.{Result, ok, err}
use ai_inference_managed_by.Workflow.Types.{Fields}
use ai_inference_managed_by.Unit.Page.{page}

-- ServiceStatus and ResourceClass are Go strings.
pub record ModelService : Type 0 where
  pub id : String
  pub name : String
  pub model_id : String
  pub status : String
  pub replicas : ℤ
  pub resource_class : String
  pub endpoints : List String
  pub active_replicas : ℤ
  pub config : Option Fields
  pub created_at : ℤ
  pub updated_at : ℤ

pub record ServiceFilter : Type 0 where
  pub status : String
  pub model_id : String
  pub limit : ℤ
  pub offset : ℤ

pub data ServiceError : Type 0 where
  service_not_found service_already_exists : ServiceError

pub record ServiceStore : Type 0 where
  pub services : Map ModelService

abbrev pub new_service_store : ServiceStore
new_service_store = record { services = [] }

unfoldable pub create_service : ModelService → ServiceStore → Option ServiceError × ServiceStore
create_service svc s =
    if is_some (lookup svc.id s.services)
    then (some service_already_exists, s)
    else (none, record s { services = insert svc.id svc s.services })

unfoldable pub get_service : String → ServiceStore → Result ServiceError ModelService
get_service id s = elim (lookup id s.services) [ none ↦ err service_not_found | some svc ↦ ok svc ]

-- The loop of GetByName: the first service of that name, in the order of ranging over the map.
unfoldable pub find_by_name : String → List ModelService → Result ServiceError ModelService
find_by_name name [] = err service_not_found
find_by_name name (svc ∷ more) =
    let rest = find_by_name name more in if svc.name == name then ok svc else rest

unfoldable pub get_service_by_name : String → ServiceStore → Result ServiceError ModelService
unfolding find_by_name
get_service_by_name name s = find_by_name name (values s.services)

-- The `continue` guards of the loop of List.
abbrev pub is_other : ServiceFilter → ModelService → Bool
is_other f svc =
    (not (f.status == "") && not (svc.status == f.status))
    || (not (f.model_id == "") && not (svc.model_id == f.model_id))

unfoldable pub select_services : ServiceFilter → List ModelService → List ModelService
select_services f [] = []
select_services f (svc ∷ more) =
    let rest = select_services f more in if is_other f svc then rest else svc ∷ rest

-- `none` is a slice expression out of bounds.
unfoldable pub list_services : ServiceFilter → ServiceStore → Option (List ModelService × ℕ)
unfolding select_services
list_services f s =
    let result = select_services f (values s.services) in
    elim (page f.offset f.limit result) [ none ↦ none | some window ↦ some (window, length result) ]

unfoldable pub delete_service : String → ServiceStore → Option ServiceError × ServiceStore
delete_service id s =
    if is_some (lookup id s.services)
    then (none, record s { services = delete id s.services })
    else (some service_not_found, s)

unfoldable pub update_service : ModelService → ServiceStore → Option ServiceError × ServiceStore
update_service svc s =
    if is_some (lookup svc.id s.services)
    then (none, record s { services = insert svc.id svc s.services })
    else (some service_not_found, s)
