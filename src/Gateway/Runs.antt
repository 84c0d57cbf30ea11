-- ===== src/Gateway/Runs.antt =====
-- Workflow requests to Gateway.Handle (pkg/gateway/gateway.go), down to the run and the store.
use ai_inference_managed_by.Base.{
  ◌<◌, ap, ◌==◌, ◌≡◌, ◌≢◌, ◌⊎◌, inl, inr, refl, String, true, false, [], Option, none, some, All,
}
use ai_inference_managed_by.Gateway.{
  trace_or, replied, validate_request, execute_workflow, invalid, executed, dispatch, Workflows,
  Request, Response, execution, Behaviour, Backend, Gateway, handle,
}
use ai_inference_managed_by.Workflow.Types.{WorkflowDef, completed, failed}
use ai_inference_managed_by.Workflow.Store.{get_workflow, get_execution}
use ai_inference_managed_by.Workflow.Engine.{
  ExecutionResult, Outcome, finished, Effects, crashed, max_attempts,
}
use ai_inference_managed_by.Workflow.Engine.Run.{Saved, completed_in}
use ai_inference_managed_by.Workflow.Engine.Marks.{Marked}
use ai_inference_managed_by.Unit.Registry.{Units}
use ai_inference_managed_by.Workflow.Store.Laws.{get_execution-saved}
use ai_inference_managed_by.Workflow.Validator.WellFormed.{IsAccepted}
use ai_inference_managed_by.Workflow.Engine.Promise.{
  execute-Saved, execute-Marked, execute-ne-crashed, execute-completed,
}

module _ (u : Units) (W : Type 0) (b : Behaviour u W) (g : Gateway u W b) where
  -- A workflow request with a name is handed to `execute_workflow`.
  handle-workflow :
      (request_id fresh_trace run_id : String) (req : Request) (s : Backend W)
      → req.type ≡ "workflow"
      → (req.unit == "") ≡ false
      → handle u W b g request_id fresh_trace run_id (some req) s
        ≡ replied u W b g request_id
            (trace_or u W b g fresh_trace req.options.trace_id)
            (execute_workflow u W b g run_id req s)
  unfolding handle
  handle-workflow request_id fresh_trace run_id req s t n =
      rw (valid, handle) (ap (replied u W b g request_id _) sent)
    where
      is : (k : String) → (req.type == k) ≡ ("workflow" == k)
      is k = ap (λ j. j == k) t

      valid : validate_request (some req) ≡ none
      valid = rw (is "command", is "query", is "resource", is "workflow", n, validate_request)

      sent : dispatch u W b g run_id req s ≡ execute_workflow u W b g run_id req s
      sent = rw (is "command", is "query", is "resource", is "workflow", dispatch)

  -- The answer to the run of a stored workflow, with what the store has of the run.
  abbrev pub Reports : String → WorkflowDef → Option Response × Backend W → Type 0
  Reports run_id def (none, s) = ⊥
  Reports run_id def (some r, s) =
      (ex : ExecutionResult) × (get_execution run_id s.store ≡ some ex)
      × (((r.success ≡ true)
            × (r.payload ≡ some (execution ex))
            × (ex.status ≡ completed)
            × All (λ st. completed_in ex.step_results st.id ≡ true) def.steps)
          ⊎ ((r.success ≡ false) × (ex.status ≡ failed)))

  executed-Reports :
      (request_id trace_id run_id : String) (ws : Workflows u W b) (def : WorkflowDef)
      (s : Backend W) (x : Outcome × Effects W)
      → Saved W ws.engine ws.format ws.show (record { world = s.world; saved = [] }) x
      → Marked W ws.engine ws.format ws.show run_id x
      → x.0 ≢ crashed
      → ((r : ExecutionResult) (f' : Effects W)
          → x ≡ (finished r none, f')
          → (r.status ≡ completed) × All (λ st. completed_in r.step_results st.id ≡ true) def.steps)
      → Reports run_id def (replied u W b g request_id trace_id (executed u W b g ws s.store x))
  executed-Reports request_id trace_id run_id ws def s (finished r none, f) saved id ne done =
      let all = done r f refl in
      (r, get_execution-saved f.saved r run_id s.store saved id, inl (refl, refl, all.0, all.1))
  executed-Reports request_id trace_id run_id ws def s (finished r (some x), f) saved (id, bad) ne
        done =
      (r, get_execution-saved f.saved r run_id s.store saved id, inr (refl, bad))
  executed-Reports request_id trace_id run_id ws def s (Outcome.crashed, f) saved id ne done =
      absurd (ne refl)
  executed-Reports request_id trace_id run_id ws def s (invalid errors, f) saved id ne done =
      elim saved [ ]
  executed-Reports request_id trace_id run_id ws def s (Outcome.unsorted, f) saved id ne done =
      elim saved [ ]
  executed-Reports request_id trace_id run_id ws def s (Outcome.no_fuel, f) saved id ne done =
      elim saved [ ]

  -- A request for a workflow that the store has under this name and that `validate` accepts, with
  -- retry settings that allow an attempt, is answered, and the store then has the run under the run
  -- id. Either the response is a success with this run, which is completed with every step
  -- completed, or it is a failure and the run is failed.
  pub handle-runs :
      (request_id fresh_trace run_id : String) (req : Request) (s : Backend W)
      (ws : Workflows u W b) (def : WorkflowDef)
      → g.workflows ≡ some ws
      → req.type ≡ "workflow"
      → (req.unit == "") ≡ false
      → get_workflow req.unit s.store ≡ some def
      → IsAccepted def
      → All (λ st. 0 < max_attempts W ws.engine st) def.steps
      → Reports run_id def (handle u W b g request_id fresh_trace run_id (some req) s)
  unfolding execute_workflow
  handle-runs request_id fresh_trace run_id req s ws def e t n found a tries =
      let f : Effects W = record { world = s.world; saved = [] } in
      rw (handle-workflow request_id fresh_trace run_id req s t n, e, found, execute_workflow)
        (executed-Reports request_id _ run_id ws def s _
          (execute-Saved W ws.engine ws.format ws.show ws.range run_id def req.input f a)
          (execute-Marked W ws.engine ws.format ws.show ws.range run_id def req.input f a)
          (execute-ne-crashed W ws.engine ws.format ws.show ws.range run_id def req.input f a tries)
          (execute-completed W ws.engine ws.format ws.show ws.range run_id def req.input f a))
