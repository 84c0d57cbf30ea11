-- ===== src/Unit/Service/Invariant.antt =====
-- What the service commands (pkg/unit/service/commands.go) keep true of every service.
use ai_inference_managed_by.Base.{
  String, Bool, true, false, not, ◌≡◌, refl, subst, List, [], ◌∷◌, Option, none, some, ◌==◌, elem,
  ◌&&◌, if◌then◌else◌, if-holds, arith, eq_iff, Bool-cases, inl, inr,
}
use ai_inference_managed_by.Base.Int.{ℤ, pos, negsuc, is_nonpos}
use ai_inference_managed_by.Base.Map.{lookup, insert, is_some, lookup-insert, lookup-delete}
use ai_inference_managed_by.Base.Result.{Result, ok, err}
use ai_inference_managed_by.Workflow.Types.{Value, Fields, scalar, text, array, object}
use ai_inference_managed_by.Workflow.Resolver.{get_field}
use ai_inference_managed_by.Unit.Errors.{GoError}
use ai_inference_managed_by.Unit.Execution.{Ending, get_string, as_int, as_bool, or_else}
use ai_inference_managed_by.Unit.Service.{
  ModelService, ServiceStore, ServiceError, new_service_store, create_service, get_service,
  update_service, delete_service,
}
use ai_inference_managed_by.Unit.Service.Commands.{
  ServiceProvider, Created, end_with, settle_create, settle_scale, settle_start, new_service,
  make_service, drop_service, in_status, scale_found, start_found, settle_stop, stop_found,
  is_stoppable, with_service, start_service, stop_service, serve, scale_to, scale_service,
  with_provider, positive_or, non_negative_replicas, execute_create_service, execute_delete_service,
  execute_scale, execute_start, execute_stop,
}
use ai_inference_managed_by.Unit.Service.Outcome.{service_statuses}

abbrev pub IsNat : ℤ → Type 0
IsNat (pos n) = Unit
IsNat (negsuc n) = ⊥

-- A service stands under its own id, in one of the four statuses, with a number of replicas that is
-- not negative.
abbrev pub IsService : String → ModelService → Type 0
IsService id svc = (svc.id ≡ id) × (elem service_statuses svc.status ≡ true) × IsNat svc.replicas

abbrev pub AllServices : ServiceStore → Type 0
AllServices s = (k : String) (svc : ModelService) → lookup k s.services ≡ some svc → IsService k svc

module _ (s : ServiceStore) (v : AllServices s) where
  insert-AllServices :
      (svc : ModelService)
      → IsService svc.id svc
      → AllServices (record s { services = insert svc.id svc s.services })
  insert-AllServices svc good k other found = elim (Bool-cases (svc.id == k)) [
    | inl same ↦
        let is : svc ≡ other = ground (arith, found, same, lookup-insert svc.id k svc s.services) in
        subst (IsService k) is (subst (λ i. IsService i svc) ((eq_iff svc.id k).0 same) good)
    | inr apart ↦ v k other (ground (arith, found, apart, lookup-insert svc.id k svc s.services))
  ]

  create_service-AllServices :
      (svc : ModelService) → IsService svc.id svc → AllServices (create_service svc s).1
  unfolding create_service
  create_service-AllServices svc good =
      if-holds (λ (r : Option ServiceError × ServiceStore). AllServices r.1)
        (is_some (lookup svc.id s.services)) _ _ v (insert-AllServices svc good)

  update_service-AllServices :
      (svc : ModelService) → IsService svc.id svc → AllServices (update_service svc s).1
  unfolding update_service
  update_service-AllServices svc good =
      if-holds (λ (r : Option ServiceError × ServiceStore). AllServices r.1)
        (is_some (lookup svc.id s.services)) _ _ (insert-AllServices svc good) v

  delete_service-AllServices : (id : String) → AllServices (delete_service id s).1
  unfolding delete_service
  delete_service-AllServices id =
      if-holds (λ (r : Option ServiceError × ServiceStore). AllServices r.1)
        (is_some (lookup id s.services)) _ _
        (λ k other found. v k other (ground (arith, found, lookup-delete id k s.services))) v

positive_or-IsNat : (o : Option ℤ) → IsNat (positive_or (pos 1) o)
positive_or-IsNat none = tt
positive_or-IsNat (some (pos n)) = if-holds IsNat (is_nonpos (pos n)) _ _ tt tt
positive_or-IsNat (some (negsuc n)) = tt

abbrev positive_part : Option ℤ → ℤ
positive_part none = pos 0
positive_part (some n) = n

non_negative_replicas-IsNat : (o : Option ℤ) (n : ℤ) → non_negative_replicas o ≡ some n → IsNat n
non_negative_replicas-IsNat none n h = absurd (cc)
non_negative_replicas-IsNat (some (pos k)) n h = subst (λ o. IsNat (positive_part o)) h tt
non_negative_replicas-IsNat (some (negsuc k)) n h = absurd (cc)

module _ {W : Type 0} where
  -- What `end_with` leaves is what the call left.
  end_with-AllServices :
      (context : String) (output : Value) (r : Option ServiceError × ServiceStore) (w : W)
      → AllServices r.1
      → AllServices (end_with context output r w).1
  end_with-AllServices context output (none, s) w h = h
  end_with-AllServices context output (some e, s) w h = h

  drop_service-AllServices :
      (s : ServiceStore) (w : W) → AllServices s → (m : Fields) → AllServices (drop_service m s w).1
  unfolding drop_service
  drop_service-AllServices s w v m =
      if-holds (λ (r : Ending × ServiceStore × W). AllServices r.1)
        (get_string m "service_id" == "") _ _ v
        (end_with-AllServices _ _ (delete_service (get_string m "service_id") s) w
          (delete_service-AllServices s v (get_string m "service_id")))

  module _ (p : ServiceProvider W) (now : ℤ) (s : ServiceStore) (w : W) (v : AllServices s) where
    -- A service of the store, in a status that a command gives it.
    moved-AllServices :
        (status id : String) (svc : ModelService)
        → elem service_statuses status ≡ true
        → IsService id svc
        → AllServices (update_service (in_status status now svc) s).1
    moved-AllServices status id svc known good =
        update_service-AllServices s v (in_status status now svc) (refl, known, good.2)

    settle_create-AllServices :
        (model_id class : String) (n : ℤ) (r : Result GoError Created × W)
        → IsNat n
        → AllServices (settle_create now model_id class n s r).1
    unfolding settle_create
    settle_create-AllServices model_id class n (err e, w') nat = v
    settle_create-AllServices model_id class n (ok made, w') nat =
        end_with-AllServices _ _ (create_service (new_service now model_id class n made) s) w'
          (create_service-AllServices s v (new_service now model_id class n made) (refl, refl, nat))

    make_service-AllServices : (m : Fields) → AllServices (make_service p now m s w).1
    unfolding make_service
    make_service-AllServices m =
        if-holds (λ (r : Ending × ServiceStore × W). AllServices r.1)
          (get_string m "model_id" == "") _ _ v
          (settle_create-AllServices _ _ _ _ (positive_or-IsNat (as_int (get_field "replicas" m))))

    module _ (id : String) (svc : ModelService) (good : IsService id svc) where
      settle_scale-AllServices :
          (n : ℤ) (r : Option GoError × W) → IsNat n → AllServices (settle_scale now id n svc s r).1
      unfolding settle_scale
      settle_scale-AllServices n (some e, w') nat = v
      settle_scale-AllServices n (none, w') nat =
          end_with-AllServices _ _
            (update_service (record svc { replicas = n; updated_at = now }) s) w'
            (update_service-AllServices s v (record svc { replicas = n; updated_at = now })
              (refl, good.1, nat))

      settle_start-AllServices :
          (r : Option GoError × W) → AllServices (settle_start now id svc s r).1
      unfolding settle_start
      settle_start-AllServices (some e, w') = moved-AllServices "failed" id svc refl good
      settle_start-AllServices (none, w') =
          end_with-AllServices _ _ (update_service (in_status "running" now svc) s) w'
            (moved-AllServices "running" id svc refl good)

      start_found-AllServices : (async : Bool) → AllServices (start_found p now async id svc s w).1
      unfolding start_found
      start_found-AllServices async =
          if-holds (λ (r : Ending × ServiceStore × W). AllServices r.1)
            (svc.status == "running" && p.is_running id w) _ _ v
            (settle_start-AllServices (p.start id async w))

      settle_stop-AllServices :
          (r : Option GoError × W) → AllServices (settle_stop now id svc s r).1
      unfolding settle_stop
      settle_stop-AllServices (none, w') =
          end_with-AllServices _ _ (update_service (in_status "stopped" now svc) s) w'
            (moved-AllServices "stopped" id svc refl good)
      settle_stop-AllServices (some e, w') =
          if-holds (λ (r : Ending × ServiceStore × W). AllServices r.1)
            (not (svc.status == "running")) _ _
            (end_with-AllServices _ _ (update_service (in_status "stopped" now svc) s) w'
              (moved-AllServices "stopped" id svc refl good))
            v

      stop_found-AllServices : (force : Bool) → AllServices (stop_found p now force id svc s w).1
      unfolding stop_found
      stop_found-AllServices force =
          if-holds (λ (r : Ending × ServiceStore × W). AllServices r.1) (svc.status == "stopped") _
            _ v
            (settle_stop-AllServices
              (if is_stoppable svc.status then p.stop id force w else (none, w)))

    serve-AllServices :
        (body : String → ModelService → ServiceStore → W → Ending × ServiceStore × W) (id : String)
        → ((svc : ModelService) → IsService id svc → AllServices (body id svc s w).1)
        → (r : Result ServiceError ModelService) → get_service id s ≡ r
        → AllServices (serve body id s w r).1
    unfolding get_service
    serve-AllServices body id h (err e) found = v
    serve-AllServices body id h (ok svc) found = h svc (v id svc (ground (arith, found)))

    -- A command on a service that the store has.
    with_service-AllServices :
        (body : String → ModelService → ServiceStore → W → Ending × ServiceStore × W) (m : Fields)
        → ((id : String) (svc : ModelService) → IsService id svc → AllServices (body id svc s w).1)
        → AllServices (with_service body m s w).1
    unfolding with_service
    with_service-AllServices body m h =
        if-holds (λ (r : Ending × ServiceStore × W). AllServices r.1)
          (get_string m "service_id" == "") _ _ v
          (serve-AllServices body (get_string m "service_id") (h (get_string m "service_id"))
            (get_service (get_string m "service_id") s) refl)

    scale_to-AllServices :
        (m : Fields) (o : Option ℤ)
        → ((n : ℤ) → o ≡ some n → IsNat n)
        → AllServices (scale_to p now m s w o).1
    unfolding scale_to scale_found
    scale_to-AllServices m none h = v
    scale_to-AllServices m (some n) h =
        with_service-AllServices (λ id. scale_found p now id n) m
          (λ id svc good. settle_scale-AllServices id svc good n (p.scale id n w) (h n refl))

    scale_service-AllServices : (m : Fields) → AllServices (scale_service p now m s w).1
    unfolding scale_service
    scale_service-AllServices m =
        if-holds (λ (r : Ending × ServiceStore × W). AllServices r.1)
          (get_string m "service_id" == "") _ _ v
          (scale_to-AllServices m (non_negative_replicas (as_int (get_field "replicas" m)))
            (non_negative_replicas-IsNat (as_int (get_field "replicas" m))))

    start_service-AllServices : (m : Fields) → AllServices (start_service p now m s w).1
    unfolding start_service
    start_service-AllServices m =
        let async = or_else false (as_bool (get_field "async" m)) in
        with_service-AllServices (start_found p now async) m
          (λ id svc good. start_found-AllServices id svc good async)

    stop_service-AllServices : (m : Fields) → AllServices (stop_service p now m s w).1
    unfolding stop_service
    stop_service-AllServices m =
        let force = or_else false (as_bool (get_field "force" m)) in
        with_service-AllServices (stop_found p now force) m
          (λ id svc good. stop_found-AllServices id svc good force)

-- A call of one of the commands, or a change of the world that no command makes.
pub data ServiceOp (W : Type 0) : Type 0 where
  creates scales starts stops : ℤ → Value → ServiceOp W
  deletes : Value → ServiceOp W
  moves : W → ServiceOp W

module _ {W : Type 0} (p : Option (ServiceProvider W)) where
  abbrev pub apply_service : ServiceOp W → ServiceStore × W → ServiceStore × W
  apply_service (creates now input) (s, w) =
      let r = execute_create_service p now input s w in (r.1, r.2)
  apply_service (scales now input) (s, w) = let r = execute_scale p now input s w in (r.1, r.2)
  apply_service (starts now input) (s, w) = let r = execute_start p now input s w in (r.1, r.2)
  apply_service (stops now input) (s, w) = let r = execute_stop p now input s w in (r.1, r.2)
  apply_service (deletes input) (s, w) = let r = execute_delete_service input s w in (r.1, r.2)
  apply_service (moves w') (s, w) = (s, w')

  abbrev pub apply_services : List (ServiceOp W) → ServiceStore × W → ServiceStore × W
  apply_services [] s = s
  apply_services (op ∷ ops) s = apply_services ops (apply_service op s)

  with_provider-AllServices :
      (body : ServiceProvider W → Fields → ServiceStore → W → Ending × ServiceStore × W)
      → (s : ServiceStore) (w : W) → AllServices s
      → ((q : ServiceProvider W) (m : Fields) → AllServices (body q m s w).1)
      → (o : Option (ServiceProvider W)) (input : Value)
      → AllServices (with_provider body o input s w).1
  with_provider-AllServices body s w v h none input = v
  with_provider-AllServices body s w v h (some q) (scalar x) = v
  with_provider-AllServices body s w v h (some q) (text t) = v
  with_provider-AllServices body s w v h (some q) (array vs) = v
  with_provider-AllServices body s w v h (some q) (object m) = h q m

  apply_service-AllServices :
      (op : ServiceOp W) (s : ServiceStore) (w : W)
      → AllServices s
      → AllServices (apply_service op (s, w)).0
  unfolding execute_create_service execute_delete_service execute_scale execute_start execute_stop
  apply_service-AllServices (creates now input) s w v =
      with_provider-AllServices (λ q. make_service q now) s w v
        (λ q m. make_service-AllServices q now s w v m) p input
  apply_service-AllServices (scales now input) s w v =
      with_provider-AllServices (λ q. scale_service q now) s w v
        (λ q m. scale_service-AllServices q now s w v m) p input
  apply_service-AllServices (starts now input) s w v =
      with_provider-AllServices (λ q. start_service q now) s w v
        (λ q m. start_service-AllServices q now s w v m) p input
  apply_service-AllServices (stops now input) s w v =
      with_provider-AllServices (λ q. stop_service q now) s w v
        (λ q m. stop_service-AllServices q now s w v m) p input
  apply_service-AllServices (deletes (object m)) s w v = drop_service-AllServices s w v m
  apply_service-AllServices (deletes (scalar x)) s w v = v
  apply_service-AllServices (deletes (text t)) s w v = v
  apply_service-AllServices (deletes (array vs)) s w v = v
  apply_service-AllServices (moves w') s w v = v

  -- Whatever the commands are asked, whatever the provider answers and however the world changes by
  -- itself, on a new store: every service stands under its own id, in one of the four statuses, with a
  -- number of replicas that is not negative.
  pub apply_services-AllServices :
      (ops : List (ServiceOp W)) (w : W) → AllServices (apply_services ops (new_service_store, w)).0
  unfolding lookup
  apply_services-AllServices ops w = from ops new_service_store w (λ k svc found. absurd (cc))
    where
      from :
          (ops : List (ServiceOp W)) (s : ServiceStore) (w : W)
          → AllServices s
          → AllServices (apply_services ops (s, w)).0
      from [] s w v = v
      from (op ∷ ops) s w v =
          from ops (apply_service op (s, w)).0 (apply_service op (s, w)).1
            (apply_service-AllServices op s w v)
