-- ===== src/Lib.antt =====
-- A model of the core of the AI inference manager: the gateway with its authentication, the workflow
-- engine with its store, the agent with its conversations and skills, the registry of units, the stores
-- and commands of the service, resource, alert and pipeline units with the pipeline executor, the errors
-- of units, the event bus, the cache and the rate limiter.
--
-- The parts and how they interact. A request comes to the gateway (pkg/gateway/gateway.go), behind a
-- middleware that checks its token (pkg/gateway/middleware/auth.go). The gateway finds the unit in the
-- registry (pkg/unit/registry.go) or the definition in the workflow store (pkg/workflow/store.go) and
-- answers with a value or an error. A workflow definition is parsed and normalised (pkg/workflow/dsl.go),
-- validated (pkg/workflow/validator.go), sorted by dependencies (TopologicalSort, same file) and run
-- step by step (pkg/workflow/engine.go): the engine resolves the references in a step's input
-- (pkg/workflow/resolver.go), calls the unit that the step names through the registry
-- (pkg/unit/registry.go) or an executor function, keeps the step's output for later references and
-- saves the result. The agent (pkg/agent) talks with a language model: its prompt holds skills of the
-- skill unit (pkg/unit/skill), and the tool calls that the language model asks for are run and their
-- results sent back to it. A pipeline (pkg/unit/pipeline) is a simpler sequence of steps that its
-- executor runs and records in its store; alerts (pkg/unit/alert) and resource slots (pkg/unit/resource)
-- have stores of the same kind, and the commands on services (pkg/unit/service) ask a provider to act and
-- record what it answers. The commands of these units check their input, change the store and publish
-- events. The event bus (pkg/infra/eventbus) hands events to its subscribers, the cache (pkg/infra/cache)
-- keeps values for a time, and the rate limiter (pkg/infra/ratelimit) admits or refuses calls.
--
-- Which file models which part:
--   Base and its children        native lists, Go's maps and texts, int, calls that return an error
--   Workflow/Types               pkg/workflow/types.go
--   Workflow/Dsl                 pkg/workflow/dsl.go: normalize_workflow_def, parse
--   Workflow/Refs                the two patterns for references, of validator.go and resolver.go
--   Workflow/Schedule            what it is to run steps in dependency order
--   Workflow/Sort                TopologicalSort: topological_sort; proofs in Sort/Fuel (it ends),
--                                Sort/Index, Sort/Relax, Sort/Loop, Sort/Correct
--   Workflow/Cycles              detectCycles: detect_cycles, with dfs as visit; proofs in Cycles/Fuel,
--                                Cycles/Path (cycles), Cycles/Visit, Cycles/Verdict
--   Workflow/Validator           Validate: validate and one function for each of its methods; proofs in
--                                Validator/Accumulate, Validator/WellFormed, Validator/Occurs (the
--                                references in texts)
--   Workflow/Resolver            Resolve: resolve and what it calls; Resolver/Shape
--   Workflow/Engine              Execute, executeStep, executeUnit: execute, execute_step,
--                                execute_unit; proofs in Engine/Run, Engine/Promise
--   Workflow/Engine/Async        ExecuteAsync: execute_async; RegisterWorkflow: register_workflow;
--                                proofs in Async/Promise, Async/Register and Engine/Marks
--   Workflow/Store               pkg/workflow/store.go; Store/Laws
--   Gateway                      pkg/gateway/gateway.go, Handle: handle, with execute as dispatch;
--                                proofs in Gateway/Answers, Gateway/Runs
--   Gateway/Errors               pkg/gateway/errors.go; Errors/Status
--   Gateway/Auth                 pkg/gateway/middleware/auth.go: auth; Auth/Guard
--   Agent                        pkg/agent/agent.go: chat, with its loop as rounds; Agent/Dialogue,
--                                Dialogue/Rounds, Dialogue/Chat (what a chat is), Agent/Prompt,
--                                Agent/Invariant
--   Agent/Store, Agent/Recent    pkg/agent/conversation.go and the messages of pkg/agent/llm/types.go;
--                                the messages that are kept
--   Agent/Commands               pkg/unit/agent: commands and queries; Commands/Reset
--   Unit/Skill                   pkg/unit/skill/types.go, store.go; Skill/Parse (ParseSkillFile)
--   Unit/Skill/Commands          pkg/unit/skill/commands.go; Commands/Immutable (builtin skills)
--   Unit/Skill/Queries           pkg/unit/skill/queries.go
--   Unit/Skill/Registry          pkg/unit/skill/registry.go; Registry/Active
--   Unit/Service                 pkg/unit/service/types.go, store.go
--   Unit/Service/Commands        pkg/unit/service/commands.go; Service/Outcome, Service/Invariant
--   Unit/Service/Queries         pkg/unit/service/queries.go
--   Unit/Errors                  pkg/unit/errors.go, the codes in Errors/Codes; Errors/Status
--   Unit/Schema                  pkg/unit/schema.go, Validate: validate_schema; Schema/Laws
--   Unit/Execution               pkg/unit/events.go, and the reading of a command's input
--   Unit/Registry                pkg/unit/registry.go, one function for each method; Registry/Laws
--   Unit/Page                    the page of a list that ListPipelines and ListAlerts return
--   Unit/Pipeline                pkg/unit/pipeline/types.go, store.go; Pipeline/Laws
--   Unit/Pipeline/Executor       pkg/unit/pipeline/executor.go, Execute; Executor/Keeps, Executor/Promise,
--                                Executor/Order
--   Unit/Pipeline/Steps          ValidateSteps of the same file: validate_steps; Steps/Fuel (it ends)
--   Unit/Pipeline/Create         the create command of pkg/unit/pipeline/commands.go; Create/Promise
--   Unit/Pipeline/Commands       run, cancel and delete of pkg/unit/pipeline/commands.go, with the
--                                executor's runs; Commands/Promise, Commands/Races
--   Unit/Alert, Unit/Resource    types.go and store.go of pkg/unit/alert and pkg/unit/resource, each
--                                with a child Laws; Resource/Refinement against a specification
--   Unit/Alert/Commands          pkg/unit/alert/commands.go; Commands/Promise
--   Unit/Resource/Commands       pkg/unit/resource/commands.go; Commands/Promise, Commands/Invariant
--   Infra/Cache                  pkg/infra/cache/cache.go; Cache/Laws
--   Infra/EventBus               pkg/infra/eventbus/eventbus.go, with the interleavings of Publish, the
--                                workers and Close in EventBus/Steps; EventBus/Invariant,
--                                EventBus/Races, EventBus/Delivery
--   Infra/RateLimit              pkg/infra/ratelimit/ratelimit.go; RateLimit/Bounds
--   */Examples                   concrete inputs on which the theorems are applied
--
-- State is passed explicitly: a method that takes a mutex is one step from a state to a result and a
-- state. A Go map is an association list; where the order of ranging over a map can matter (the
-- initial queue of TopologicalSort) it is a parameter, RangeOrder. A value of type `any` is a tree.
-- Errors are constructors that carry what the message shows. The outside world on which units act
-- is a state `W` of any type.
--
-- Fuel: the loop of topological_sort has one round for each step, the recursion of detect_cycles as
-- many levels as there are steps and one more, and that of the pipelines' validate_steps two more;
-- a chat has 30 rounds, which is the bound of the code itself.
-- Each is enough for every input.
--
-- Integers: limits and offsets of a page wrap round at 64 bits; retry counts and in-degrees stay far
-- from the bounds, and so, by assumption, does the sum of a bucket's tokens and its refill.
--
-- Pointers: a store that gives out its own record is written to through it. UpdateSlotCommand and the
-- pipeline commands carry the store along with each such write; elsewhere a caller changes a value
-- and puts it back, which is the same as long as each record stands under its own id. A chat writes to
-- its conversation through a pointer while tools act on the store: the model keeps the conversation,
-- the store, and whether the store still has this very one (Held in Agent). The steps of a pipeline
-- act on the pipeline store too.
--
-- Not modelled: times and durations of workflow runs, the pauses between attempts, timeouts and
-- contexts, Cancel and IsRunning of the workflow engine, and streamed responses. A pipeline run is
-- either one call that runs to its end or a start and an end that other commands stand between.
-- The YAML and JSON decoders, fmt.Sprintf("%v"), the clock, fresh ids and the float computation of
-- a refill are parameters; numbers in the input of a command are Go ints, and floats are left out.
-- reflect.DeepEqual, regexp.MatchString, strings.ToLower and sort.Slice are parameters too, and so are
-- the LLM, the executor of tools, the step executor of pipelines and the provider of services.
-- The other queries, and the stores and commands of the other domains are left out; the providers of
-- pkg/infra and the network servers are input and output.
pub mod Agent
pub mod Base
pub mod Gateway
pub mod Infra
pub mod Unit
pub mod Workflow
