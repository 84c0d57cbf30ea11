-- ===== src/Unit/Service/Outcome.antt =====
-- How starting, stopping and deleting end (pkg/unit/service/commands.go).
use ai_inference_managed_by.Base.{
  String, Bool, true, false, ◌&&◌, ◌||◌, ◌≡◌, refl, sym, subst, ◌∙◌, List, [], ◌∷◌, Option, none,
  some, ◌==◌, elem, if◌then◌else◌, arith, eq_iff, Bool-cases, Option-cases, inl, inr,
}
use ai_inference_managed_by.Base.Int.{ℤ}
use ai_inference_managed_by.Base.Map.{lookup, is_some, lookup-insert, lookup-delete}
use ai_inference_managed_by.Base.Result.{ok, err}
use ai_inference_managed_by.Workflow.Types.{Fields, object}
use ai_inference_managed_by.Workflow.Resolver.{get_field}
use ai_inference_managed_by.Unit.Errors.{GoError}
use ai_inference_managed_by.Unit.Execution.{
  Ending, done, refuse, refuse_in, get_string, or_else, as_bool, success,
}
use ai_inference_managed_by.Unit.Service.{
  ModelService, ServiceStore, service_not_found, get_service, update_service, delete_service,
}
use ai_inference_managed_by.Unit.Service.Commands.{
  ServiceProvider, service_error, err_service_already_running, about, in_status, start_found,
  start_service, stop_service, stop_found, settle_stop, with_service, execute_start, execute_stop,
  execute_delete_service, drop_service,
}

abbrev pub service_statuses : List String
service_statuses = "creating" ∷ "running" ∷ "stopped" ∷ "failed" ∷ []

idle_not_running : (t : String) → (t == "stopped") ≡ true → (t == "running") ≡ false
idle_not_running t h = subst (λ u. (u == "running") ≡ false) (sym ((eq_iff t "stopped").0 h)) refl

-- How a start ends, by the error of the provider.
abbrev pub started_as : Option GoError → String
started_as none = "running"
started_as (some e) = "failed"

abbrev pub start_ending : String → Option GoError → Ending
start_ending id none = done success
start_ending id (some e) = refuse_in (about "start" id) e

abbrev pub stop_ending : String → Bool → Option GoError → Ending
stop_ending id false o = done success
stop_ending id true none = done success
stop_ending id true (some e) = refuse_in (about "stop" id) e

module _ {W : Type 0} (p : ServiceProvider W) (now : ℤ) (id k : String) (svc : ModelService)
    (m : Fields) (s : ServiceStore) (w : W) where
  -- Starting a service that the store has under its own id, which is not empty, is refused and changes
  -- nothing if it is running for the store and for the provider. Otherwise the provider is asked to
  -- start it, once: the service is then running if that succeeds, and failed, with the provider's error,
  -- if it does not, and no other service is changed.
  pub start_outcome :
      (id == "") ≡ false
      → svc.id ≡ id
      → lookup id s.services ≡ some svc
      → get_string m "service_id" ≡ id
      → let asked = p.start id (or_else false (as_bool (get_field "async" m))) w in
        let busy = svc.status == "running" && p.is_running id w in
        let r = execute_start (some p) now (object m) s w in
        (r.0 ≡ (if busy then refuse err_service_already_running else start_ending id asked.0))
        × (r.2 ≡ (if busy then w else asked.1))
        × (get_service k r.1 ≡ (
            if busy
            then get_service k s
            else if id == k
            then ok (in_status (started_as asked.0) now svc)
            else get_service k s))
  unfolding execute_start start_service with_service start_found get_service update_service
  start_outcome given own found named =
      let asked = p.start id (or_else false (as_bool (get_field "async" m))) w in
      elim (Option-cases asked.0) [
        | inl fine ↦ (
          ground (arith, given, own, found, named, fine),
          ground (arith, given, own, found, named, fine),
          ground (
            arith,
            given,
            own,
            found,
            named,
            fine,
            lookup-insert svc.id k (in_status "running" now svc) s.services,
          ),
        )
        | inr (e, failed) ↦ (
          ground (arith, given, own, found, named, failed),
          ground (arith, given, own, found, named, failed),
          ground (
            arith,
            given,
            own,
            found,
            named,
            failed,
            lookup-insert svc.id k (in_status "failed" now svc) s.services,
          ),
        )
      ]

  -- What stopping does, with the error and the world that the provider gives.
  stopped_with : Option GoError → W → Ending × ServiceStore × W
  stopped_with o w' =
      if svc.status == "stopped" then (done success, s, w) else settle_stop now id svc s (o, w')

  stop_found-eq :
      (force : Bool)
      → elem service_statuses svc.status ≡ true
      → stop_found p now force id svc s w ≡ stopped_with (p.stop id force w).0 (p.stop id force w).1
  unfolding stop_found stopped_with
  stop_found-eq force known = elim (Bool-cases (svc.status == "stopped")) [
    | inl idle ↦ rw idle refl
    | inr awake ↦ ground (
      arith,
      awake,
      known,
      eq_iff svc.status "stopped",
      eq_iff svc.status "running",
      eq_iff svc.status "creating",
      eq_iff svc.status "failed",
      eq_iff "stopped" svc.status,
      eq_iff "running" svc.status,
      eq_iff "creating" svc.status,
      eq_iff "failed" svc.status,
    )
  ]

  execute_stop-found :
      (id == "") ≡ false
      → lookup id s.services ≡ some svc
      → get_string m "service_id" ≡ id
      → execute_stop (some p) now (object m) s w
        ≡ stop_found p now (or_else false (as_bool (get_field "force" m))) id svc s w
  unfolding execute_stop stop_service with_service get_service
  execute_stop-found given found named = ground (arith, given, found, named)

  stopped_with-outcome :
      (o : Option GoError) (w' : W)
      → svc.id ≡ id
      → lookup id s.services ≡ some svc
      → let idle = svc.status == "stopped" in
        let running = svc.status == "running" in
        let r = stopped_with o w' in
        (r.0 ≡ stop_ending id running o)
        × (r.2 ≡ (if idle then w else w'))
        × (get_service k r.1 ≡ (
            if idle || (running && is_some o)
            then get_service k s
            else if id == k
            then ok (in_status "stopped" now svc)
            else get_service k s))
  unfolding stopped_with settle_stop get_service update_service
  stopped_with-outcome none w' own found = (
    ground (arith, own, found, eq_iff svc.status "stopped", eq_iff svc.status "running"),
    ground (arith, own, found),
    ground (arith, own, found, lookup-insert svc.id k (in_status "stopped" now svc) s.services),
  )
  stopped_with-outcome (some e) w' own found = (
    ground (arith, own, found, idle_not_running svc.status),
    ground (arith, own, found),
    ground (
      arith,
      own,
      found,
      idle_not_running svc.status,
      lookup-insert svc.id k (in_status "stopped" now svc) s.services,
    ),
  )

  -- Stopping a service that is stopped changes nothing and does not ask the provider. In another
  -- status the provider is asked to stop it, once; the service is then stopped, unless it was running and the
  -- provider gives an error, which is returned and changes nothing. No other service is changed.
  pub stop_outcome :
      (id == "") ≡ false
      → svc.id ≡ id
      → elem service_statuses svc.status ≡ true
      → lookup id s.services ≡ some svc
      → get_string m "service_id" ≡ id
      → let asked = p.stop id (or_else false (as_bool (get_field "force" m))) w in
        let idle = svc.status == "stopped" in
        let running = svc.status == "running" in
        let r = execute_stop (some p) now (object m) s w in
        (r.0 ≡ stop_ending id running asked.0)
        × (r.2 ≡ (if idle then w else asked.1))
        × (get_service k r.1 ≡ (
            if idle || (running && is_some asked.0)
            then get_service k s
            else if id == k
            then ok (in_status "stopped" now svc)
            else get_service k s))
  stop_outcome given own known found named =
      let force = or_else false (as_bool (get_field "force" m)) in
      let idle = svc.status == "stopped" in
      let running = svc.status == "running" in
      let asked = p.stop id force w in
      subst
        (λ r.
          (r.0 ≡ stop_ending id running asked.0)
          × (r.2 ≡ (if idle then w else asked.1))
          × (get_service k r.1 ≡ (
              if idle || (running && is_some asked.0)
              then get_service k s
              else if id == k
              then ok (in_status "stopped" now svc)
              else get_service k s)))
        (sym (execute_stop-found given found named ∙ stop_found-eq force known))
        (stopped_with-outcome asked.0 asked.1 own found)

  -- Deleting a service, a running one too, succeeds without asking the provider to stop it, and
  -- forgets it and no other; stopping it afterwards is refused, and the provider is not asked then either.
  pub delete_outcome :
      (id == "") ≡ false
      → lookup id s.services ≡ some svc
      → get_string m "service_id" ≡ id
      → let r = execute_delete_service (object m) s w in
        let t = execute_stop (some p) now (object m) r.1 r.2 in
        (r.0 ≡ done success)
        × (r.2 ≡ w)
        × (get_service k r.1 ≡ (if id == k then err service_not_found else get_service k s))
        × (t ≡ (refuse_in (about "get" id) (service_error service_not_found), r.1, w))
  unfolding execute_delete_service execute_stop stop_service with_service drop_service get_service
      delete_service
  delete_outcome given found named = (
    ground (arith, given, found, named),
    ground (arith, given, found, named),
    ground (arith, given, found, named, lookup-delete id k s.services, eq_iff id k),
    ground (arith, given, found, named, lookup-delete id id s.services, eq_iff id id),
  )
