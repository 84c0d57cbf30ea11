-- ===== src/Unit/Pipeline/Executor/Promise.antt =====
-- What the executor (pkg/unit/pipeline/executor.go) promises about a run.
use ai_inference_managed_by.Unit.Pipeline.Executor.Keeps.{KeepsIn, HasRun, run_steps-KeepsIn}
use ai_inference_managed_by.Unit.Pipeline.Executor.{
  step_failed, not_satisfied, message_of, status_of, finish_run, Ending, execute, step_input,
  perform_step, completed, unsatisfied, StepExecutor, run_steps,
}
use ai_inference_managed_by.Base.{
  refl, Option-cases, false, ◌⊎◌, ◌∙◌, inr, ap, inl, All-imp, eq_refl, sym, subst, true, Bool,
  String, if◌then◌else◌, List, [], ◌∷◌, Option, none, some, arith, eq_iff, ◌==◌, All, ◌≡◌,
}
use ai_inference_managed_by.Unit.Pipeline.{
  update_pipeline, update_run, StoreError, get_pipeline, get_run, PipelineRun, Pipeline, ℤ,
  PipelineStep, Fields, MemoryStore,
}
use ai_inference_managed_by.Base.Result.{err, ok, Result-cases, Result}
use ai_inference_managed_by.Base.Map.{insert, lookup, is_some, Map, lookup-insert}

-- Every name has a result.
abbrev pub AllIn : Map Fields → List String → Type 0
AllIn results = All (λ k. is_some (lookup k results) ≡ true)

-- A step was executed: it has a result, and so has each step it depends on.
abbrev pub IsExecuted : Map Fields → PipelineStep → Type 0
IsExecuted results step = (is_some (lookup step.id results) ≡ true) × AllIn results step.depends_on

pub unsatisfied-AllIn :
    (deps : List String) (m : Map Fields) → unsatisfied deps m ≡ none → AllIn m deps
unfolding unsatisfied
unsatisfied-AllIn [] m h = tt
unsatisfied-AllIn (dep ∷ deps) m h = (ground arith, unsatisfied-AllIn deps m (ground arith))

insert-keeps :
    (k j : String) (v : Fields) (m : Map Fields)
    → is_some (lookup j m) ≡ true
    → is_some (lookup j (insert k v m)) ≡ true
insert-keeps k j v m h = ground (arith, lookup-insert k j v m)

module _ {W : Type 0} (e : Option (StepExecutor W)) (done : W → Bool) where
  run_steps-keeps :
      (input : Fields) (steps : List PipelineStep) (m : Map Fields) (w : W) (k : String)
      → is_some (lookup k m) ≡ true
      → is_some (lookup k (run_steps e done input steps m w).0.1) ≡ true
  unfolding run_steps
  run_steps-keeps input [] m w k h = h
  run_steps-keeps input (step ∷ steps) m w k h =
      let r = perform_step e done step (step_input input step.input) w in
      elim (Result-cases r.0) [
        | inl (out, eq) ↦ ground (
          arith,
          eq,
          run_steps-keeps input steps (insert step.id out m) r.1 k (insert-keeps step.id k out m h),
        )
        | inr (x, eq) ↦ ground (arith, eq)
      ]

  -- A loop that completes gets past its first step.
  pub run_steps-advances :
      (input : Fields) (step : PipelineStep) (steps : List PipelineStep) (m : Map Fields) (w : W)
      → (run_steps e done input (step ∷ steps) m w).0.0 ≡ completed
      → (out : Fields) × (w' : W) × (unsatisfied step.depends_on m ≡ none)
        × (run_steps e done input (step ∷ steps) m w
            ≡ run_steps e done input steps (insert step.id out m) w')
  unfolding run_steps
  run_steps-advances input step steps m w h =
      let r = perform_step e done step (step_input input step.input) w in
      elim (Result-cases r.0) [
        | inl (out, eq) ↦ (out, r.1, ground (arith, eq), ground (arith, eq))
        | inr (x, eq) ↦ absurd (ground (arith, eq))
      ]

  -- When the loop completes, every step has a result, and so has every step it depends on.
  run_steps-IsExecuted :
      (input : Fields) (steps : List PipelineStep) (m : Map Fields) (w : W)
      → (run_steps e done input steps m w).0.0 ≡ completed
      → All (IsExecuted (run_steps e done input steps m w).0.1) steps
  unfolding run_steps
  run_steps-IsExecuted input [] m w h = tt
  run_steps-IsExecuted input (step ∷ steps) m w h =
      let (out, w', deps, eq) = run_steps-advances input step steps m w h in
      let m' = insert step.id out m in
      let keeps = λ (k : String). run_steps-keeps input steps m' w' k in
      subst (λ r. All (IsExecuted r.0.1) (step ∷ steps)) (sym eq)
        (
          (
            keeps step.id (ground (arith, lookup-insert step.id step.id out m, eq_refl step.id)),
            All-imp _ _ step.depends_on (λ k found. keeps k (insert-keeps step.id k out m found))
                (unsatisfied-AllIn step.depends_on m deps),
          ),
          run_steps-IsExecuted input steps m' w' (ap (λ r. r.0.0) (sym eq) ∙ h),
        )

-- finishRun's record of the run, and the pipeline it sets to idle.
unfoldable pub ended : Ending × Map Fields → ℤ → PipelineRun → PipelineRun
ended (ending, results) now run = record run {
  status = status_of ending;
  step_results = results;
  error = if message_of ending == "" then run.error else message_of ending;
  completed_at = some now;
}

abbrev pub idle_at : ℤ → Result StoreError Pipeline → Result StoreError Pipeline
idle_at now (err x) = err x
idle_at now (ok p) = ok (record p { status = "idle"; updated_at = now })

pub get_run-finish_run :
    (o : Ending × Map Fields) (now : ℤ) (id : String) (run : PipelineRun) (s : MemoryStore)
    (k : String)
    → is_some (lookup run.id s.runs) ≡ true
    → get_run k (finish_run o now id run s)
      ≡ (if run.id == k then ok (ended o now run) else get_run k s)
unfolding finish_run get_run update_run update_pipeline get_pipeline ended
get_run-finish_run (ending, results) now id run s k h =
    ground (arith, h, lookup-insert run.id k (ended (ending, results) now run) s.runs)

pub get_pipeline-finish_run :
    (o : Ending × Map Fields) (now : ℤ) (id : String) (run : PipelineRun) (s : MemoryStore)
    (k : String)
    → ((q : Pipeline) → lookup id s.pipelines ≡ some q → q.id ≡ id)
    → get_pipeline k (finish_run o now id run s)
      ≡ (if id == k then idle_at now (get_pipeline k s) else get_pipeline k s)
unfolding finish_run get_run update_run update_pipeline get_pipeline ended
get_pipeline-finish_run (ending, results) now id run s k named =
    elim (Option-cases (lookup id s.pipelines)) [
      | inl e ↦ ground (arith, e, eq_iff id k)
      | inr (q, e) ↦ ground (
        arith,
        e,
        eq_iff id k,
        named q e,
        lookup-insert id k (record q { status = "idle"; updated_at = now }) s.pipelines,
      )
    ]

-- The ending of a run: completed with every step executed, or failed, or cancelled.
abbrev pub IsEnding : List PipelineStep → PipelineRun → Type 0
IsEnding steps q =
    ((q.status ≡ "completed") × All (IsExecuted q.step_results) steps)
    ⊎ (q.status ≡ "failed")
    ⊎ (q.status ≡ "cancelled")

ended-IsEnding :
    (steps : List PipelineStep) (ending : Ending) (results : Map Fields) (now : ℤ)
    (run : PipelineRun)
    → (ending ≡ completed → All (IsExecuted results) steps)
    → IsEnding steps (ended (ending, results) now run)
unfolding ended
ended-IsEnding steps completed results now run h = inl (refl, h refl)
ended-IsEnding steps Ending.cancelled results now run h = inr (inr refl)
ended-IsEnding steps (not_satisfied dep) results now run h = inr (inl refl)
ended-IsEnding steps (step_failed id error) results now run h = inr (inl refl)

-- The run as it starts, and a store with it.
unfoldable pub begun : ℤ → PipelineRun → PipelineRun
begun start run = record run { status = "running"; started_at = start; step_results = [] }

unfoldable pub stored : PipelineRun → MemoryStore → MemoryStore
stored run s = record s { runs = insert run.id run s.runs }

is_some-stored :
    (run : PipelineRun) (s : MemoryStore) → is_some (lookup run.id (stored run s).runs) ≡ true
unfolding stored
is_some-stored run s = ground (arith, lookup-insert run.id run.id run s.runs, eq_refl run.id)

module _ {W : Type 0} (e : Option (StepExecutor (MemoryStore × W))) (done : MemoryStore × W → Bool)
    (start stop : ℤ) (p : Pipeline) (run : PipelineRun) (input : Fields) (s : MemoryStore)
    (w : W) where
  -- The loop over the steps, from the store with the run that has begun.
  abbrev pub looped : (Ending × Map Fields) × (MemoryStore × W)
  looped = run_steps e done input p.steps [] (stored (begun start run) s, w)

  execute-eq :
      is_some (lookup run.id s.runs) ≡ true
      → (execute e done start stop p run input s w).0
        ≡ (none, finish_run looped.0 stop p.id (begun start run) looped.1.0)
  unfolding execute update_run stored begun
  execute-eq h = ground (arith, h)

  begun-HasRun :
      is_some (lookup run.id s.runs) ≡ true
      → ((q : Pipeline) → lookup p.id s.pipelines ≡ some q → q.id ≡ p.id)
      → HasRun run.id p.id (stored (begun start run) s, w)
  unfolding stored begun
  begun-HasRun h named = (is_some-stored (begun start run) s, named)

  -- On a store that has the run, and has the pipeline, if at all, under its own id, and with steps
  -- that leave it so whatever else they do to the store, `execute` gives no error. Afterwards the
  -- run has its end time and is completed, failed or cancelled; when it is completed, every step
  -- has a result and so has every step it depends on. The pipeline is idle if the steps have left
  -- it in the store, and every other run and pipeline is as the steps have left it.
  pub execute-IsFinished :
      is_some (lookup run.id s.runs) ≡ true
      → ((q : Pipeline) → lookup p.id s.pipelines ≡ some q → q.id ≡ p.id)
      → KeepsIn (HasRun run.id p.id) e
      → let r = (execute e done start stop p run input s w).0 in
        (r.0 ≡ none)
        × ((q : PipelineRun) × (get_run run.id r.1 ≡ ok q)
            × (q.completed_at ≡ some stop)
            × IsEnding p.steps q)
        × ((k : String) → (run.id == k) ≡ false → get_run k r.1 ≡ get_run k looped.1.0)
        × ((k : String)
            → get_pipeline k r.1 ≡ (
                if p.id == k
                then idle_at stop (get_pipeline k looped.1.0)
                else get_pipeline k looped.1.0))
  unfolding begun get_run get_pipeline ended
  execute-IsFinished h named keeps =
      let run' = begun start run in
      let o = looped.0 in
      let s' = looped.1.0 in
      let (there, named') =
        run_steps-KeepsIn (HasRun run.id p.id) done e input p.steps []
          (stored (begun start run) s, w) keeps (begun-HasRun h named) in
      subst
        (λ (r : Option StoreError × MemoryStore).
          (r.0 ≡ none)
          × ((q : PipelineRun) × (get_run run.id r.1 ≡ ok q)
              × (q.completed_at ≡ some stop)
              × IsEnding p.steps q)
          × ((k : String) → (run.id == k) ≡ false → get_run k r.1 ≡ get_run k s')
          × ((k : String)
              → get_pipeline k r.1
                ≡ (if p.id == k then idle_at stop (get_pipeline k s') else get_pipeline k s')))
        (sym (execute-eq h))
        (
          refl,
          (
            ended o stop run',
            ground (arith, get_run-finish_run o stop p.id run' s' run.id there, eq_refl run.id),
            refl,
            ended-IsEnding p.steps o.0 o.1 stop run'
                (run_steps-IsExecuted e done input p.steps [] (stored (begun start run) s, w)),
          ),
          (λ k ne. ground (arith, get_run-finish_run o stop p.id run' s' k there, ne)),
          λ k. get_pipeline-finish_run o stop p.id run' s' k named',
        )
