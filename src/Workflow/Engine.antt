-- ===== src/Workflow/Engine.antt =====
-- WorkflowEngine of pkg/workflow/engine.go: Execute and what it calls. `W` is the state of the outside
-- world that the units act on; times and durations are left out, and so is the pause between two
-- attempts. What SaveExecution is given is appended to a list.
pub mod Run
pub mod Marks
pub mod Async
pub mod Promise
use ai_inference_managed_by.Base.{
  ℕ, zero, suc, ◌≡◌, refl, String, Bool, true, false, List, [], ◌∷◌, ◌++◌, ◌==◌, Option, none, some,
  if◌then◌else◌,
}
use ai_inference_managed_by.Base.Int.{ℤ, pos_part}
use ai_inference_managed_by.Base.Result.{Result, ok, err}
use ai_inference_managed_by.Base.Map.{Map, lookup, insert}
use ai_inference_managed_by.Workflow.Types.{
  Value, text, object, Fields, end, field, fields_of, WorkflowStep, WorkflowDef, ExecutionContext,
  ExecutionStatus, completed, failed, running,
}
use ai_inference_managed_by.Workflow.Resolver.{ResolveError, resolve_step_input, resolve_output}
use ai_inference_managed_by.Workflow.Sort.{RangeOrder, topological_sort}
use ai_inference_managed_by.Workflow.Validator.{ValidationError, validate}

-- Where an error text comes from.
pub data ErrorText : Type 0 where
  resolving : ResolveError → ErrorText
  resolving_output : ResolveError → ErrorText
  unit_error : String → ErrorText
  unit_not_found : String → ErrorText
  no_executor : ErrorText

pub record StepResult : Type 0 where
  pub step_id : String
  pub status : ExecutionStatus
  pub output : Fields
  pub error : Option ErrorText

pub record ExecutionResult : Type 0 where
  pub workflow_id : String
  pub run_id : String
  pub status : ExecutionStatus
  pub step_results : Map StepResult
  pub output : Fields
  pub error : Option ErrorText

-- `panicked` is a nil pointer dereference.
pub data StepOutcome : Type 0 where
  done : StepResult → StepOutcome
  panicked : StepOutcome

pub data Outcome : Type 0 where
  invalid : List ValidationError → Outcome
  unsorted : Outcome
  finished : ExecutionResult → Option ErrorText → Outcome
  crashed : Outcome
  no_fuel : Outcome

abbrev pub is_failed : ExecutionStatus → Bool
is_failed failed = true
is_failed _ = false

module _ (W : Type 0) where
  pub record Effects : Type 0 where
    pub world : W
    pub saved : List ExecutionResult

  abbrev pub UnitCall : Type 0
  UnitCall = Fields → W → Result String Value × W

  abbrev pub UnitExecutor : Type 0
  UnitExecutor = String → Fields → W → Result String Fields × W

  -- The parts of the engine that its methods read.
  pub record WorkflowEngine : Type 0 where
    pub executor : Option UnitExecutor
    pub registered : Bool
    pub get_command : String → Option UnitCall
    pub get_query : String → Option UnitCall

  -- The result of a unit of the registry: a map as it is, anything else under the key "result".
  abbrev pub as_map : Result String Value × W → Result ErrorText Fields × W
  as_map (ok (object m), w) = (ok m, w)
  as_map (ok v, w) = (ok (field "result" v end), w)
  as_map (err e, w) = (err (unit_error e), w)

  abbrev pub as_output : Result String Fields × W → Result ErrorText Fields × W
  as_output (ok m, w) = (ok m, w)
  as_output (err e, w) = (err (unit_error e), w)

  module _ (e : WorkflowEngine) where
    open e use {executor, registered, get_command, get_query}

    unfoldable pub execute_unit : String → Fields → W → Result ErrorText Fields × W
    execute_unit type input w = elim executor [
      | some run ↦ as_output (run type input w)
      | none ↦
          if registered
          then elim (get_command type) [
            | some cmd ↦ as_map (cmd input w)
            | none ↦ elim (get_query type) [
              | some query ↦ as_map (query input w)
              | none ↦ (err (unit_not_found type), w)
            ]
          ]
          else (err no_executor, w)
    ]

    -- The loop over the attempts that are left: the output, or the last error if there was one.
    unfoldable pub attempt :
        ℕ → Option ErrorText → String → Fields → W → (Result (Option ErrorText) Fields) × W
    attempt zero last type input w = (err last, w)
    attempt (suc n) last type input w =
        let (r, w') = execute_unit type input w in
        elim r [ ok m ↦ (ok m, w') | err error ↦ attempt n (some error) type input w' ]

    abbrev pub max_attempts : WorkflowStep → ℕ
    max_attempts s = elim s.retry [ none ↦ 1 | some r ↦ pos_part r.max_attempts ]

    -- What follows the loop: `lastErr.Error()` is called on every way out but success.
    abbrev pub conclude :
        (ErrorText → Value) → WorkflowStep → Result (Option ErrorText) Fields → StepOutcome
    conclude show s (ok m) =
        done (record { step_id = s.id; status = completed; output = m; error = none })
    conclude show s (err none) = panicked
    conclude show s (err (some error)) =
        if s.on_failure == "continue"
        then done (record {
          step_id = s.id;
          status = completed;
          output = field "error" (show error) end;
          error = none;
        })
        else done (record { step_id = s.id; status = failed; output = end; error = some error })

    module _ (format : Value → String) (show : ErrorText → Value) where
      unfoldable pub execute_step : ExecutionContext → WorkflowStep → W → StepOutcome × W
      execute_step ctx s w = elim (resolve_step_input ctx format s) [
        | err error ↦ (
          done (record {
            step_id = s.id;
            status = failed;
            output = end;
            error = some (resolving error);
          }),
          w,
        )
        | ok input ↦
            let (r, w') = attempt (max_attempts s) none s.type input w in (conclude show s r, w')
      ]

      -- SaveExecution and return
      abbrev pub finish : ExecutionResult → Option ErrorText → Effects → Outcome × Effects
      finish r error f = (finished r error, record f { saved = f.saved ++ r ∷ [] })

      -- After the loop over the steps.
      unfoldable pub finish_output :
          WorkflowDef → ExecutionResult → ExecutionContext → Effects → Outcome × Effects
      finish_output def r ctx f = elim (resolve_output ctx format def.output) [
        | err error ↦
            finish (record r { status = failed; error = some (resolving_output error) })
              (some (resolving_output error)) f
        | ok m ↦ finish (record r { status = completed; output = m }) none f
      ]

      -- What the loop does with a step's outcome: `rest` is the loop over the later steps.
      unfoldable pub after_step :
          (ExecutionResult → ExecutionContext → Effects → Outcome × Effects)
          → WorkflowStep
          → ExecutionResult
          → ExecutionContext
          → Effects
          → StepOutcome
          → Outcome × Effects
      after_step rest s r ctx f panicked = (crashed, f)
      after_step rest s r ctx f (done sr) =
          let r' : ExecutionResult = record r { step_results = insert s.id sr r.step_results } in
          if is_failed sr.status
          then finish (record r' { status = failed; error = sr.error }) sr.error f
          else rest r' (record ctx { steps = insert s.id sr.output ctx.steps }) f

      -- The loop over the sorted steps; a nil step pointer is dereferenced at once.
      unfoldable pub execute_steps :
          WorkflowDef
          → List (Option WorkflowStep)
          → ExecutionResult
          → ExecutionContext
          → Effects
          → Outcome × Effects
      unfolding finish_output
      execute_steps def [] r ctx f = finish_output def r ctx f
      execute_steps def (none ∷ ss) r ctx f = (crashed, f)
      execute_steps def (some s ∷ ss) r ctx f =
          let (o, w) = execute_step ctx s f.world in
          after_step (execute_steps def ss) s r ctx (record f { world = w }) o

      -- Execute, with the run id that generateRunID drew.
      unfoldable pub execute :
          RangeOrder → String → WorkflowDef → Fields → Effects → Outcome × Effects
      execute range run_id def input f = elim (validate def) [
        | none ↦ (no_fuel, f)
        | some v ↦ elim v.valid [
          | false ↦ (invalid v.errors, f)
          | true ↦ elim (topological_sort range def) [
            | none ↦ (no_fuel, f)
            | some sorted ↦ elim sorted [
              | err error ↦ (unsorted, f)
              | ok steps ↦
                  execute_steps def steps
                    (record {
                      workflow_id = def.name;
                      run_id = run_id;
                      status = running;
                      step_results = [];
                      output = end;
                      error = none;
                    })
                    (record { input = input; config = fields_of def.config; steps = [] }) f
            ]
          ]
        ]
      ]
