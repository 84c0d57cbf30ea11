-- ===== src/Gateway/Answers.antt =====
-- What Gateway.Handle (pkg/gateway/gateway.go) answers, and what it leaves alone.
use ai_inference_managed_by.Base.{
  ◌==◌, if-holds, ◌≡◌, ◌⊎◌, inl, inr, refl, String, true, false, Option, none, some, Option-cases,
}
use ai_inference_managed_by.Gateway.{
  replied, validate_request, get_query, get_command, find_resource, execute_workflow,
  execute_resource, invalid, execute_query, executed, execute_command, dispatch, answered,
  Workflows, Answer, Request, Response, ErrorInfo, Payload, Behaviour, Backend, Gateway, handle,
}
use ai_inference_managed_by.Base.Result.{Result, ok, err}
use ai_inference_managed_by.Workflow.Types.{Value}
use ai_inference_managed_by.Workflow.Store.{get_workflow}
use ai_inference_managed_by.Workflow.Engine.{Outcome, finished, Effects}
use ai_inference_managed_by.Unit.Registry.{Units}

module _ (u : Units) (W : Type 0) (b : Behaviour u W) (g : Gateway u W b) where
  -- A response is either a success with a value and no error, or a failure with an error and no
  -- value; a failure by another code than EXECUTION_FAILED has left everything as it was.
  abbrev pub IsHonest : Backend W → Option Response × Backend W → Type 0
  IsHonest s (none, s') = Unit
  IsHonest s (some r, s') =
      ((r.success ≡ true) × ((p : Payload) × (r.payload ≡ some p)) × (r.error ≡ none))
      ⊎ ((r.success ≡ false)
          × (r.payload ≡ none)
          × ((e : ErrorInfo) × (r.error ≡ some e) × ((e.code ≡ "EXECUTION_FAILED") ⊎ (s' ≡ s))))

  -- The same of the result of `dispatch`.
  abbrev IsFair : Backend W → Answer W → Type 0
  IsFair s (none, s') = Unit
  IsFair s (some (ok p), s') = Unit
  IsFair s (some (err e), s') = (e.code ≡ "EXECUTION_FAILED") ⊎ (s' ≡ s)

  answered-IsFair :
      (failure : String) (s : Backend W) (r : Result String Value × W)
      → IsFair s (answered u W b failure s r)
  answered-IsFair failure s (ok v, w) = tt
  answered-IsFair failure s (err e, w) = inl refl

  executed-IsFair :
      (ws : Workflows u W b) (s : Backend W) (r : Outcome × Effects W)
      → IsFair s (executed u W b g ws s.store r)
  executed-IsFair ws s (finished r none, f) = tt
  executed-IsFair ws s (finished r (some x), f) = inl refl
  executed-IsFair ws s (invalid errors, f) = inl refl
  executed-IsFair ws s (Outcome.unsorted, f) = inl refl
  executed-IsFair ws s (Outcome.crashed, f) = tt
  executed-IsFair ws s (Outcome.no_fuel, f) = tt

  module _ (req : Request) (s : Backend W) where
    execute_command-IsFair : IsFair s (execute_command u W b g req s)
    unfolding execute_command
    execute_command-IsFair = elim (Option-cases (get_command u req.unit g.registry)) [
      | inl e ↦ rw (e, execute_command) (inr refl)
      | inr (c, e) ↦
          rw (e, execute_command) (answered-IsFair _ s (b.execute_command c req.input s.world))
    ]

    execute_query-IsFair : IsFair s (execute_query u W b g req s)
    unfolding execute_query
    execute_query-IsFair = elim (Option-cases (get_query u req.unit g.registry)) [
      | inl e ↦ rw (e, execute_query) (inr refl)
      | inr (q, e) ↦
          rw (e, execute_query) (answered-IsFair _ s (b.execute_query q req.input s.world))
    ]

    execute_resource-IsFair : IsFair s (execute_resource u W b g req s)
    unfolding execute_resource
    execute_resource-IsFair = elim (Option-cases (find_resource u W b g req.unit)) [
      | inl e ↦ rw (e, execute_resource) (inr refl)
      | inr (r, e) ↦ rw (e, execute_resource) (answered-IsFair _ s (b.get_value r s.world))
    ]

    execute_workflow-IsFair : (run_id : String) → IsFair s (execute_workflow u W b g run_id req s)
    unfolding execute_workflow
    execute_workflow-IsFair run_id = elim (Option-cases g.workflows) [
      | inl e ↦ rw (e, execute_workflow) (inr refl)
      | inr (ws, e) ↦ elim (Option-cases (get_workflow req.unit s.store)) [
        | inl missing ↦ rw (e, missing, execute_workflow) tt
        | inr (def, found) ↦ rw (e, found, execute_workflow) (executed-IsFair ws s _)
      ]
    ]

    dispatch-IsFair : (run_id : String) → IsFair s (dispatch u W b g run_id req s)
    unfolding dispatch
    dispatch-IsFair run_id =
        if-holds (IsFair s) (req.type == "command") _ _ execute_command-IsFair (
          if-holds (IsFair s) (req.type == "query") _ _ execute_query-IsFair (
            if-holds (IsFair s) (req.type == "resource") _ _ execute_resource-IsFair (
              if-holds (IsFair s) (req.type == "workflow") _ _ (execute_workflow-IsFair run_id)
                (inr refl))))

  replied-IsHonest :
      (request_id trace_id : String) (s : Backend W) (a : Answer W)
      → IsFair s a
      → IsHonest s (replied u W b g request_id trace_id a)
  replied-IsHonest request_id trace_id s (none, s') h = tt
  replied-IsHonest request_id trace_id s (some (ok p), s') h = inl (refl, (p, refl), refl)
  replied-IsHonest request_id trace_id s (some (err e), s') h = inr (refl, refl, (e, refl, h))

  -- Whatever the request and the gateway: the response is a success with a value and no error, or a
  -- failure with an error and no value, and a failure by any other code than EXECUTION_FAILED has
  -- left the world and the store as they were.
  pub handle-IsHonest :
      (request_id fresh_trace run_id : String) (req : Option Request) (s : Backend W)
      → IsHonest s (handle u W b g request_id fresh_trace run_id req s)
  unfolding handle
  handle-IsHonest request_id fresh_trace run_id none s = inr (refl, refl, (_, refl, inr refl))
  handle-IsHonest request_id fresh_trace run_id (some req) s =
      elim (Option-cases (validate_request (some req))) [
        | inl e ↦ rw (e, handle) (replied-IsHonest request_id _ s _ (dispatch-IsFair req s run_id))
        | inr (x, e) ↦ rw (e, handle) (inr (refl, refl, (x, refl, inr refl)))
      ]
