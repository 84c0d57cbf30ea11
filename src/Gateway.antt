-- ===== src/Gateway.antt =====
-- Gateway.Handle of pkg/gateway/gateway.go and what it calls, over the unit registry and the workflow
-- engine. The contexts, the timeout and the duration are left out: the gateway only passes the
-- context on. A panic is `none`.
pub mod Answers
pub mod Runs
pub mod Auth
pub mod Errors
pub mod Examples
use Prim.Native.String.{◌++◌ as append}
use ai_inference_managed_by.Base.{
  ℕ, String, Bool, true, false, ◌||◌, List, [], ◌∷◌, Option, none, some, ◌==◌, if◌then◌else◌,
}
use ai_inference_managed_by.Base.Result.{Result, ok, err}
use ai_inference_managed_by.Workflow.Types.{Value, Fields, WorkflowDef}
use ai_inference_managed_by.Workflow.Sort.{RangeOrder}
use ai_inference_managed_by.Workflow.Store.{InMemoryWorkflowStore, get_workflow, save_all}
use ai_inference_managed_by.Workflow.Engine.{
  ErrorText, ExecutionResult, Outcome, invalid, unsorted, finished, crashed, no_fuel, Effects,
  WorkflowEngine, execute,
}
use ai_inference_managed_by.Unit.Registry.{
  Units, Registry, get_command, get_query, get_resource, get_resource_with_factory,
}

pub record RequestOptions : Type 0 where
  pub async : Bool
  pub trace_id : String

pub record Request : Type 0 where
  pub type : String
  pub unit : String
  pub input : Fields
  pub options : RequestOptions

-- ErrorInfo: the codes are Go strings; `details` is the text of an error.
pub record ErrorInfo : Type 0 where
  pub code : String
  pub message : String
  pub details : Option String

abbrev pub new_error_info : String → String → ErrorInfo
new_error_info code message = record { code = code; message = message; details = none }

abbrev pub new_error_info_with_details : String → String → String → ErrorInfo
new_error_info_with_details code message details = record {
  code = code;
  message = message;
  details = some details;
}

-- What a unit or a workflow gives back.
pub data Payload : Type 0 where
  value : Value → Payload
  execution : ExecutionResult → Payload

pub record Response : Type 0 where
  pub success : Bool
  pub payload : Option Payload
  pub error : Option ErrorInfo
  pub request_id : String
  pub trace_id : String

abbrev pub is_request_type : String → Bool
is_request_type t = t == "command" || t == "query" || t == "resource" || t == "workflow"

unfoldable pub validate_request : Option Request → Option ErrorInfo
validate_request none = some (new_error_info "INVALID_REQUEST" "request is nil")
validate_request (some req) =
    if is_request_type req.type
    then (if req.unit == ""
        then some (new_error_info "INVALID_REQUEST" "unit is required")
        else none)
    else some (new_error_info "INVALID_REQUEST" (append "invalid request type: " req.type))

-- What the gateway calls of the units: Execute and Get, in a world `W`.
pub record Behaviour (u : Units) (W : Type 0) : Type 0 where
  pub execute_command : u.Command → Fields → W → Result String Value × W
  pub execute_query : u.Query → Fields → W → Result String Value × W
  pub get_value : u.Resource → W → Result String Value × W

-- What the gateway holds and acts on. The engine's store is that behind SaveExecution.
pub record Backend (W : Type 0) : Type 0 where
  pub world : W
  pub store : InMemoryWorkflowStore

abbrev pub Answer : Type 0 → Type 0
Answer W = Option (Result ErrorInfo Payload) × Backend W

module _ (u : Units) (W : Type 0) (b : Behaviour u W) where
  -- The workflow engine with its parameters, if one is configured.
  pub record Workflows : Type 0 where
    pub engine : WorkflowEngine W
    pub format : Value → String
    pub show : ErrorText → Value
    pub range : RangeOrder
    -- the text of the error that Execute returns
    pub describe : Outcome → String

  pub record Gateway : Type 0 where
    pub registry : Registry u
    pub workflows : Option Workflows

  abbrev pub answered : String → Backend W → Result String Value × W → Answer W
  answered failure s (ok v, w) = (some (ok (value v)), record s { world = w })
  answered failure s (err e, w) = (
    some (err (new_error_info_with_details "EXECUTION_FAILED" failure e)),
    record s { world = w },
  )

  module _ (g : Gateway) where
    unfoldable pub execute_command : Request → Backend W → Answer W
    execute_command req s = elim (get_command u req.unit g.registry) [
      | none ↦
          (some (err (new_error_info "UNIT_NOT_FOUND" (append "command not found: " req.unit))), s)
      | some c ↦ answered "command execution failed" s (b.execute_command c req.input s.world)
    ]

    unfoldable pub execute_query : Request → Backend W → Answer W
    execute_query req s = elim (get_query u req.unit g.registry) [
      | none ↦
          (some (err (new_error_info "UNIT_NOT_FOUND" (append "query not found: " req.unit))), s)
      | some q ↦ answered "query execution failed" s (b.execute_query q req.input s.world)
    ]

    -- The direct lookup, and then the one with factories.
    abbrev pub find_resource : String → Option u.Resource
    find_resource uri = elim (get_resource u uri g.registry) [
      | some r ↦ some r
      | none ↦ get_resource_with_factory u uri g.registry
    ]

    unfoldable pub execute_resource : Request → Backend W → Answer W
    execute_resource req s = elim (find_resource req.unit) [
      | none ↦ (
        some (err (new_error_info "RESOURCE_NOT_FOUND" (append "resource not found: " req.unit))),
        s,
      )
      | some r ↦ answered "resource get failed" s (b.get_value r s.world)
    ]

    -- The return values of Execute, and the store after its calls of SaveExecution.
    abbrev pub executed : Workflows → InMemoryWorkflowStore → Outcome × Effects W → Answer W
    executed ws store (finished r none, f) =
        (some (ok (execution r)), record { world = f.world; store = save_all f.saved store })
    executed ws store (finished r (some x), f) = (
      some (
          err (
            new_error_info_with_details "EXECUTION_FAILED" "workflow execution failed"
              (ws.describe (finished r (some x))))),
      record { world = f.world; store = save_all f.saved store },
    )
    executed ws store (invalid errors, f) = (
      some (
          err (
            new_error_info_with_details "EXECUTION_FAILED" "workflow execution failed"
              (ws.describe (invalid errors)))),
      record { world = f.world; store = save_all f.saved store },
    )
    executed ws store (unsorted, f) = (
      some (
          err (
            new_error_info_with_details "EXECUTION_FAILED" "workflow execution failed"
              (ws.describe unsorted))),
      record { world = f.world; store = save_all f.saved store },
    )
    executed ws store (crashed, f) =
        (none, record { world = f.world; store = save_all f.saved store })
    executed ws store (no_fuel, f) =
        (none, record { world = f.world; store = save_all f.saved store })

    -- Execute on what GetWorkflow gives, which is nil with no error for a missing workflow: Validate
    -- reads the steps through the pointer before anything else is done.
    abbrev pub run_definition :
        Workflows → String → Fields → Option WorkflowDef → Effects W → Outcome × Effects W
    run_definition ws run_id input none f = (crashed, f)
    run_definition ws run_id input (some def) f =
        execute W ws.engine ws.format ws.show ws.range run_id def input f

    unfoldable pub execute_workflow : String → Request → Backend W → Answer W
    execute_workflow run_id req s = elim g.workflows [
      | none ↦ (some (err (new_error_info "INTERNAL_ERROR" "workflow engine not configured")), s)
      | some ws ↦ executed ws s.store (
          run_definition ws run_id req.input (get_workflow req.unit s.store)
            (record { world = s.world; saved = [] }))
    ]

    unfoldable pub dispatch : String → Request → Backend W → Answer W
    unfolding execute_command execute_query execute_resource execute_workflow
    dispatch run_id req s =
        if req.type == "command"
        then execute_command req s
        else if req.type == "query"
        then execute_query req s
        else if req.type == "resource"
        then execute_resource req s
        else if req.type == "workflow"
        then execute_workflow run_id req s
        else (
          some (err (new_error_info "INVALID_REQUEST" (append "unknown request type: " req.type))),
          s,
        )

    -- The response to the result of `dispatch`.
    abbrev pub respond : String → String → Result ErrorInfo Payload → Response
    respond request_id trace_id (ok p) = record {
      success = true;
      payload = some p;
      error = none;
      request_id = request_id;
      trace_id = trace_id;
    }
    respond request_id trace_id (err e) = record {
      success = false;
      payload = none;
      error = some e;
      request_id = request_id;
      trace_id = trace_id;
    }

    abbrev pub replied : String → String → Answer W → Option Response × Backend W
    replied request_id trace_id (none, s) = (none, s)
    replied request_id trace_id (some answer, s) = (some (respond request_id trace_id answer), s)

    abbrev pub trace_or : String → String → String
    trace_or fresh id = if id == "" then fresh else id

    -- Handle, with the ids that are drawn: of the request, of the trace and of a run.
    unfoldable pub handle :
        String → String → String → Option Request → Backend W → Option Response × Backend W
    unfolding dispatch validate_request
    handle request_id fresh_trace run_id none s =
        (some (respond request_id "" (err (new_error_info "INVALID_REQUEST" "request is nil"))), s)
    handle request_id fresh_trace run_id (some req) s = elim (validate_request (some req)) [
      | some e ↦ (some (respond request_id "" (err e)), s)
      | none ↦
          replied request_id (trace_or fresh_trace req.options.trace_id) (dispatch run_id req s)
    ]
