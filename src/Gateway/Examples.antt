-- ===== src/Gateway/Examples.antt =====
-- A gateway on which the theorems about pkg/gateway/gateway.go are applied.
use ai_inference_managed_by.Base.{ℕ, suc, String, false, refl, [], ◌∷◌, none, some}
use ai_inference_managed_by.Base.Map.{lookup}
use ai_inference_managed_by.Base.Result.{ok}
use ai_inference_managed_by.Workflow.Types.{text, end}
use ai_inference_managed_by.Workflow.Sort.{insertion_order}
use ai_inference_managed_by.Workflow.Store.{get_workflow, new_workflow_store}
use ai_inference_managed_by.Workflow.Examples.{
  chain, chain-IsAccepted, chain-tries, counting, plain_format, show_error,
}
use ai_inference_managed_by.Unit.Registry.{new_registry}
use ai_inference_managed_by.Unit.Examples.{named}
use ai_inference_managed_by.Gateway.{Request, Backend, Behaviour, Gateway, Workflows, handle}
use ai_inference_managed_by.Unit.Errors.{GoError, wrapped, unit_error, new_error}
use ai_inference_managed_by.Gateway.Answers.{IsHonest, handle-IsHonest}
use ai_inference_managed_by.Gateway.Runs.{Reports, handle-runs}

abbrev answering : Behaviour named ℕ
answering = record {
  execute_command = λ c input w. (ok (text c), suc w);
  execute_query = λ q input w. (ok (text q), w);
  get_value = λ r w. (ok (text r), w);
}

abbrev workflows : Workflows named ℕ answering
workflows = record {
  engine = counting;
  format = plain_format;
  show = show_error;
  range = insertion_order;
  describe = λ o. "failed";
}

abbrev gateway : Gateway named ℕ answering
gateway = record { registry = new_registry named; workflows = some workflows }

abbrev request : String → Request
request unit = record {
  type = "workflow";
  unit = unit;
  input = end;
  options = record { async = false; trace_id = "" };
}

abbrev backend : Backend ℕ
backend = record {
  world = 0;
  store = record new_workflow_store { workflows = ("example", chain) ∷ [] };
}

handle-runs_example :
    Reports named ℕ answering gateway "run-1" chain (
      handle named ℕ answering gateway "req-1" "trace-1" "run-1" (some (request "example")) backend)
unfolding get_workflow lookup
handle-runs_example =
    handle-runs named ℕ answering gateway "req-1" "trace-1" "run-1" (request "example") backend
      workflows chain refl refl refl refl chain-IsAccepted chain-tries

handle-IsHonest_example :
    IsHonest named ℕ answering gateway backend
      (handle named ℕ answering gateway "req-1" "trace-1" "run-1" none backend)
handle-IsHonest_example =
    handle-IsHonest named ℕ answering gateway "req-1" "trace-1" "run-1" none backend

abbrev lost : GoError
lost = wrapped "get slot s" (unit_error (new_error "00402" "slot not found"))
