-- ===== src/Unit/Service/Commands.antt =====
-- pkg/unit/service/commands.go. The provider acts on a world `W`, and leaves the store alone; the clock is an
-- argument. Timeouts are left out.
--
-- Get gives the store's own service, and a command that writes to it puts it back on every path that
-- ends in another state than the one it found: the write is one step here.
use Prim.Native.String.{◌++◌ as append}
use ai_inference_managed_by.Base.{
  String, Bool, false, not, ◌&&◌, ◌||◌, List, Option, none, some, ◌==◌, if◌then◌else◌,
}
use ai_inference_managed_by.Base.Int.{ℤ, pos, negsuc, is_nonpos}
use ai_inference_managed_by.Base.Result.{Result, ok, err}
use ai_inference_managed_by.Workflow.Types.{Value, Fields, text, object, field, end}
use ai_inference_managed_by.Workflow.Resolver.{get_field}
use ai_inference_managed_by.Unit.Errors.{GoError, wrapped, unit_error, new_error, new_domain_error}
use ai_inference_managed_by.Unit.Errors.Codes.{
  err_code_invalid_input, err_code_already_exists, err_code_internal_error,
  err_code_service_not_found,
}
use ai_inference_managed_by.Unit.Execution.{
  Ending, done, refuse, refuse_in, input_map, as_int, as_bool, or_else, get_string, success,
}
use ai_inference_managed_by.Unit.Service.{
  ModelService, ServiceStore, ServiceError, service_not_found, service_already_exists,
  create_service, get_service, delete_service, update_service,
}

abbrev pub err_invalid_service_input : GoError
err_invalid_service_input = unit_error (new_error err_code_invalid_input "invalid input")

abbrev pub err_service_provider_not_set : GoError
err_service_provider_not_set =
    unit_error (new_error err_code_internal_error "service provider not set")

abbrev pub err_service_already_running : GoError
err_service_already_running =
    unit_error (new_error err_code_already_exists "service already running")

abbrev pub service_error : ServiceError → GoError
service_error service_not_found =
    unit_error (new_domain_error "service" err_code_service_not_found "service not found")
service_error service_already_exists =
    unit_error (new_error err_code_already_exists "service already exists")

-- What a provider gives for a new service.
pub record Created : Type 0 where
  pub id : String
  pub endpoints : List String
  pub config : Option Fields

-- ServiceProvider, as far as the commands use it. Starting takes the `async` flag, which a provider
-- without StartAsync does not look at; `none` is a nil error.
pub record ServiceProvider (W : Type 0) : Type 0 where
  pub create : (model_id resource_class : String) → ℤ → Bool → W → Result GoError Created × W
  pub start : String → Bool → W → Option GoError × W
  pub stop : String → Bool → W → Option GoError × W
  pub scale : String → ℤ → W → Option GoError × W
  pub is_running : String → W → Bool

-- fmt.Errorf("verb service %s: %w", id, err)
abbrev pub about : String → String → String
about verb id = append verb (append " service " id)

-- if r, ok := toInt(…); ok && r > 0
abbrev pub positive_or : ℤ → Option ℤ → ℤ
positive_or n none = n
positive_or n (some r) = if is_nonpos r then n else r

-- replicas, ok := toInt(…); !ok || replicas < 0 is `none`
abbrev pub non_negative_replicas : Option ℤ → Option ℤ
non_negative_replicas none = none
non_negative_replicas (some (pos n)) = some (pos n)
non_negative_replicas (some (negsuc n)) = none

abbrev pub missing_key : String → GoError
missing_key key = wrapped (append key " is required") err_invalid_service_input

abbrev pub new_service : ℤ → String → String → ℤ → Created → ModelService
new_service now model_id resource_class replicas made = record {
  id = made.id;
  name = append "service-" made.id;
  model_id = model_id;
  status = "creating";
  replicas = replicas;
  resource_class = resource_class;
  endpoints = made.endpoints;
  active_replicas = pos 0;
  config = made.config;
  created_at = now;
  updated_at = now;
}

abbrev pub in_status : String → ℤ → ModelService → ModelService
in_status status now svc = record svc { status = status; updated_at = now }

-- The states from which StopCommand asks the provider to stop.
abbrev pub is_stoppable : String → Bool
is_stoppable status = status == "running" || status == "creating" || status == "failed"

module _ {W : Type 0} where
  -- How a call of the store ends a command.
  abbrev pub end_with :
      String → Value → Option ServiceError × ServiceStore → W → Ending × ServiceStore × W
  end_with context output (none, s) w = (done output, s, w)
  end_with context output (some e, s) w = (refuse_in context (service_error e), s, w)

  -- The end of CreateCommand, on what the provider gives.
  unfoldable pub settle_create :
      ℤ
      → String
      → String
      → ℤ
      → ServiceStore
      → Result GoError Created × W
      → Ending × ServiceStore × W
  unfolding create_service
  settle_create now model_id class replicas s (err e, w) = (refuse_in "create service" e, s, w)
  settle_create now model_id class replicas s (ok made, w) =
      end_with "save service" (object (field "service_id" (text made.id) end))
        (create_service (new_service now model_id class replicas made) s) w

  -- CreateCommand, on its input.
  unfoldable pub make_service :
      ServiceProvider W → ℤ → Fields → ServiceStore → W → Ending × ServiceStore × W
  unfolding settle_create get_field
  make_service p now m s w =
      let model_id = get_string m "model_id" in
      let given = get_string m "resource_class" in
      let class = if given == "" then "medium" else given in
      let replicas = positive_or (pos 1) (as_int (get_field "replicas" m)) in
      let persistent = or_else false (as_bool (get_field "persistent" m)) in
      if model_id == ""
      then (refuse (missing_key "model_id"), s, w)
      else settle_create now model_id class replicas s
          (p.create model_id class replicas persistent w)

  -- DeleteCommand, on its input: the provider is not asked.
  unfoldable pub drop_service : Fields → ServiceStore → W → Ending × ServiceStore × W
  unfolding delete_service get_field
  drop_service m s w =
      let id = get_string m "service_id" in
      if id == ""
      then (refuse (missing_key "service_id"), s, w)
      else end_with (about "delete" id) success (delete_service id s) w

  -- The end of ScaleCommand, on the error of the provider.
  unfoldable pub settle_scale :
      ℤ → String → ℤ → ModelService → ServiceStore → Option GoError × W → Ending × ServiceStore × W
  unfolding update_service
  settle_scale now id replicas svc s (some e, w) = (refuse_in (about "scale" id) e, s, w)
  settle_scale now id replicas svc s (none, w) =
      end_with (about "update" id) success
        (update_service (record svc { replicas = replicas; updated_at = now }) s) w

  -- ScaleCommand on the service that it finds.
  unfoldable pub scale_found :
      ServiceProvider W
      → ℤ
      → String
      → ℤ
      → ModelService
      → ServiceStore
      → W
      → Ending × ServiceStore × W
  unfolding settle_scale
  scale_found p now id replicas svc s w = settle_scale now id replicas svc s (p.scale id replicas w)

  -- The end of StartCommand, on the error of the provider.
  unfoldable pub settle_start :
      ℤ → String → ModelService → ServiceStore → Option GoError × W → Ending × ServiceStore × W
  unfolding update_service
  settle_start now id svc s (some e, w) =
      (refuse_in (about "start" id) e, (update_service (in_status "failed" now svc) s).1, w)
  settle_start now id svc s (none, w) =
      end_with (about "update" id) success (update_service (in_status "running" now svc) s) w

  -- StartCommand on the service that it finds.
  unfoldable pub start_found :
      ServiceProvider W
      → ℤ
      → Bool
      → String
      → ModelService
      → ServiceStore
      → W
      → Ending × ServiceStore × W
  unfolding settle_start
  start_found p now async id svc s w =
      if svc.status == "running" && p.is_running id w
      then (refuse err_service_already_running, s, w)
      else settle_start now id svc s (p.start id async w)

  -- The end of StopCommand, on the error that stopping gave.
  unfoldable pub settle_stop :
      ℤ → String → ModelService → ServiceStore → Option GoError × W → Ending × ServiceStore × W
  unfolding update_service
  settle_stop now id svc s (none, w) =
      end_with (about "update" id) success (update_service (in_status "stopped" now svc) s) w
  settle_stop now id svc s (some e, w) =
      if not (svc.status == "running")
      then end_with (about "update" id) success (update_service (in_status "stopped" now svc) s) w
      else (refuse_in (about "stop" id) e, s, w)

  -- StopCommand on the service that it finds.
  unfoldable pub stop_found :
      ServiceProvider W
      → ℤ
      → Bool
      → String
      → ModelService
      → ServiceStore
      → W
      → Ending × ServiceStore × W
  unfolding settle_stop
  stop_found p now force id svc s w =
      if svc.status == "stopped"
      then (done success, s, w)
      else settle_stop now id svc s
          (if is_stoppable svc.status then p.stop id force w else (none, w))

  -- What a command does with the result of Get.
  abbrev pub serve :
      (String → ModelService → ServiceStore → W → Ending × ServiceStore × W)
      → String
      → ServiceStore
      → W
      → Result ServiceError ModelService
      → Ending × ServiceStore × W
  serve body id s w (err e) = (refuse_in (about "get" id) (service_error e), s, w)
  serve body id s w (ok svc) = body id svc s w

  -- What the three commands do to find the service that the input names.
  unfoldable pub with_service :
      (String → ModelService → ServiceStore → W → Ending × ServiceStore × W)
      → Fields
      → ServiceStore
      → W
      → Ending × ServiceStore × W
  unfolding get_service get_field
  with_service body m s w =
      let id = get_string m "service_id" in
      if id == ""
      then (refuse (missing_key "service_id"), s, w)
      else serve body id s w (get_service id s)

  -- ScaleCommand, on the replicas that its input gives.
  unfoldable pub scale_to :
      ServiceProvider W → ℤ → Fields → ServiceStore → W → Option ℤ → Ending × ServiceStore × W
  unfolding with_service scale_found
  scale_to p now m s w none =
      (refuse (wrapped "replicas must be a non-negative integer" err_invalid_service_input), s, w)
  scale_to p now m s w (some n) = with_service (λ id. scale_found p now id n) m s w

  -- ScaleCommand, on its input: the replicas are read before the service.
  unfoldable pub scale_service :
      ServiceProvider W → ℤ → Fields → ServiceStore → W → Ending × ServiceStore × W
  unfolding scale_to
  scale_service p now m s w =
      if get_string m "service_id" == ""
      then (refuse (missing_key "service_id"), s, w)
      else scale_to p now m s w (non_negative_replicas (as_int (get_field "replicas" m)))

  -- StartCommand and StopCommand, on their input.
  unfoldable pub start_service :
      ServiceProvider W → ℤ → Fields → ServiceStore → W → Ending × ServiceStore × W
  unfolding with_service start_found
  start_service p now m s w =
      with_service (start_found p now (or_else false (as_bool (get_field "async" m)))) m s w

  unfoldable pub stop_service :
      ServiceProvider W → ℤ → Fields → ServiceStore → W → Ending × ServiceStore × W
  unfolding with_service stop_found
  stop_service p now m s w =
      with_service (stop_found p now (or_else false (as_bool (get_field "force" m)))) m s w

  -- What every Execute starts with: the provider and the map.
  abbrev pub with_provider :
      (ServiceProvider W → Fields → ServiceStore → W → Ending × ServiceStore × W)
      → Option (ServiceProvider W)
      → Value
      → ServiceStore
      → W
      → Ending × ServiceStore × W
  with_provider body none input s w = (refuse err_service_provider_not_set, s, w)
  with_provider body (some p) input s w = elim (input_map input) [
    | none ↦ (refuse (wrapped "invalid input type" err_invalid_service_input), s, w)
    | some m ↦ body p m s w
  ]

  unfoldable pub execute_create_service :
      Option (ServiceProvider W) → ℤ → Value → ServiceStore → W → Ending × ServiceStore × W
  unfolding make_service
  execute_create_service p now = with_provider (λ p. make_service p now) p

  unfoldable pub execute_delete_service : Value → ServiceStore → W → Ending × ServiceStore × W
  unfolding drop_service
  execute_delete_service input s w = elim (input_map input) [
    | none ↦ (refuse (wrapped "invalid input type" err_invalid_service_input), s, w)
    | some m ↦ drop_service m s w
  ]

  unfoldable pub execute_scale :
      Option (ServiceProvider W) → ℤ → Value → ServiceStore → W → Ending × ServiceStore × W
  unfolding scale_service
  execute_scale p now = with_provider (λ p. scale_service p now) p

  unfoldable pub execute_start :
      Option (ServiceProvider W) → ℤ → Value → ServiceStore → W → Ending × ServiceStore × W
  unfolding start_service
  execute_start p now = with_provider (λ p. start_service p now) p

  unfoldable pub execute_stop :
      Option (ServiceProvider W) → ℤ → Value → ServiceStore → W → Ending × ServiceStore × W
  unfolding stop_service
  execute_stop p now = with_provider (λ p. stop_service p now) p
