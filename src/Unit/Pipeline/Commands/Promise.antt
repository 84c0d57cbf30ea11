-- ===== src/Unit/Pipeline/Commands/Promise.antt =====
-- What the pipeline commands (pkg/unit/pipeline/commands.go) do to the store and to the executor's runs.
use ai_inference_managed_by.Base.{
  String, Bool, true, false, ◌≡◌, refl, sym, ap, ◌∙◌, subst, [], ◌∷◌, none, some, ◌==◌, ◌||◌, ◌&&◌,
  elem, if◌then◌else◌, arith, eq_iff, eq_refl,
}
use ai_inference_managed_by.Base.Int.{ℤ}
use ai_inference_managed_by.Base.Map.{
  insert, lookup, lookup-insert, lookup-insert_self, lookup-delete,
}
use ai_inference_managed_by.Base.Result.{ok, err}
use ai_inference_managed_by.Workflow.Types.{Fields, text, object, field, end}
use ai_inference_managed_by.Unit.Execution.{Ending, done, refuse, get_string, success}
use ai_inference_managed_by.Unit.Pipeline.{
  Pipeline, PipelineRun, MemoryStore, pipeline_not_found, get_pipeline, update_pipeline,
  delete_pipeline, create_run, get_run, update_run,
}
use ai_inference_managed_by.Unit.Pipeline.Commands.{
  PipelineSystem, begin_run, cancel_run, launch, execute_run, execute_cancel, execute_delete,
  cancel_found, set_idle, is_cancellable, is_terminal, err_pipeline_running,
  err_run_not_cancellable, new_run,
}

-- DeleteCommand on a pipeline that the store has: it refuses exactly when the pipeline's status is
-- running, and then changes nothing; otherwise this pipeline alone is gone. The runs stay.
pub execute_delete-outcome :
    (m : Fields) (p : Pipeline) (y : PipelineSystem) (k : String)
    → (get_string m "pipeline_id" == "") ≡ false
    → lookup (get_string m "pipeline_id") y.store.pipelines ≡ some p
    → let r = execute_delete m y in
      let id = get_string m "pipeline_id" in
      (r.0 ≡ (if p.status == "running" then refuse err_pipeline_running else done success))
      × (get_pipeline k r.1.store ≡ (
          if p.status == "running"
          then get_pipeline k y.store
          else if id == k
          then err pipeline_not_found
          else get_pipeline k y.store))
      × (r.1.store.runs ≡ y.store.runs)
      × (r.1.running ≡ y.running)
unfolding execute_delete get_pipeline delete_pipeline
execute_delete-outcome m p y k ne h =
    let id = get_string m "pipeline_id" in
    (
      ground (arith, ne, h),
      ground (arith, ne, h, lookup-delete id k y.store.pipelines),
      ground (arith, ne, h),
      ground (arith, ne, h),
    )

-- RunCommand, once the pipeline is found, when its run id is not taken.
abbrev pub begun : ℤ → PipelineRun → PipelineRun
begun now run = record run { status = "running"; started_at = now; step_results = [] }

abbrev pub busy : ℤ → Pipeline → Pipeline
busy now p = record p { status = "running"; updated_at = now }

abbrev pub launched : ℤ → PipelineRun → Pipeline → PipelineSystem → PipelineSystem
launched now run p y = record y {
  store = record {
    pipelines = insert p.id (busy now p) (insert p.id (busy now p) y.store.pipelines);
    runs = insert run.id (begun now run) (insert run.id run y.store.runs);
  };
  running = if elem y.running run.id then y.running else run.id ∷ y.running;
}

launch-eq :
    (now : ℤ) (run : PipelineRun) (p : Pipeline) (y : PipelineSystem)
    → run.pipeline_id ≡ p.id
    → lookup run.id y.store.runs ≡ none
    → launch true now run p y ≡ (
      done (object (field "run_id" (text run.id) (field "status" (text "running") end))),
      launched now run p y,
    )
unfolding launch create_run update_pipeline begin_run update_run
launch-eq now run p y named new = ground (
  arith,
  named,
  new,
  lookup-insert run.id run.id run y.store.runs,
  eq_refl run.id,
  lookup-insert p.id p.id (busy now p) y.store.pipelines,
  eq_refl p.id,
)

execute_run-eq :
    (fresh : String) (now : ℤ) (m : Fields) (p : Pipeline) (y : PipelineSystem)
    → (p.id == "") ≡ false
    → get_string m "pipeline_id" ≡ p.id
    → lookup p.id y.store.pipelines ≡ some p
    → lookup fresh y.store.runs ≡ none
    → execute_run true fresh now m y ≡ (
      done (object (field "run_id" (text fresh) (field "status" (text "running") end))),
      launched now (new_run fresh now m) p y,
    )
unfolding execute_run get_pipeline
execute_run-eq fresh now m p y ne named h new =
    ground (arith, ne, named, h, launch-eq now (new_run fresh now m) p y named new)

-- What a started run leaves for the other operations to see.
abbrev pub Started :
    String → ℤ → Fields → Pipeline → PipelineSystem → Ending × PipelineSystem → Type 0
Started fresh now m p y r =
    (r.0 ≡ done (object (field "run_id" (text fresh) (field "status" (text "running") end))))
    × ((k : String)
        → get_pipeline k r.1.store
          ≡ (if p.id == k then ok (busy now p) else get_pipeline k y.store))
    × ((k : String)
        → get_run k r.1.store
          ≡ (if fresh == k then ok (begun now (new_run fresh now m)) else get_run k y.store))
    × ((k : String) → elem r.1.running k ≡ (fresh == k || elem y.running k))

launched-Started :
    (fresh : String) (now : ℤ) (m : Fields) (p : Pipeline) (y : PipelineSystem)
    → Started fresh now m p y (
      done (object (field "run_id" (text fresh) (field "status" (text "running") end))),
      launched now (new_run fresh now m) p y,
    )
unfolding get_pipeline get_run
launched-Started fresh now m p y = (
  refl,
  (λ k. ground (
    arith,
    lookup-insert p.id k (busy now p) (insert p.id (busy now p) y.store.pipelines),
    lookup-insert p.id k (busy now p) y.store.pipelines,
  )),
  (λ k. ground (
    arith,
    lookup-insert fresh k (begun now (new_run fresh now m))
        (insert fresh (new_run fresh now m) y.store.runs),
    lookup-insert fresh k (new_run fresh now m) y.store.runs,
  )),
  λ k. ground (arith, eq_iff fresh k),
)

-- RunCommand, with an executor, on a pipeline that the store has under its own id and with a run id that is
-- not taken: it succeeds whatever the pipeline's status is. The pipeline is then running, the run is
-- stored as running and is among the executor's runs; all else is as it was.
pub execute_run-Started :
    (fresh : String) (now : ℤ) (m : Fields) (p : Pipeline) (y : PipelineSystem)
    → (p.id == "") ≡ false
    → get_string m "pipeline_id" ≡ p.id
    → lookup p.id y.store.pipelines ≡ some p
    → lookup fresh y.store.runs ≡ none
    → Started fresh now m p y (execute_run true fresh now m y)
execute_run-Started fresh now m p y ne named h new =
    subst (Started fresh now m p y) (sym (execute_run-eq fresh now m p y ne named h new))
      (launched-Started fresh now m p y)

abbrev pub stopped : ℤ → PipelineRun → PipelineRun
stopped now run = record run { status = "cancelled"; completed_at = some now }

abbrev pub with_run : PipelineRun → MemoryStore → MemoryStore
with_run run s = record s { runs = insert run.id run s.runs }

set_idle-runs : (now : ℤ) (id : String) (s : MemoryStore) → (set_idle now id s).runs ≡ s.runs
unfolding set_idle get_pipeline update_pipeline
set_idle-runs now id s = ground arith

cancel_found-eq :
    (executing : Bool) (now : ℤ) (run : PipelineRun) (y : PipelineSystem)
    → lookup run.id y.store.runs ≡ some run
    → (executing && elem y.running run.id) ≡ false
    → cancel_found executing now run y ≡ (
      done success,
      record y { store = set_idle now run.pipeline_id (with_run (stopped now run) y.store) },
    )
unfolding cancel_found cancel_run update_run
cancel_found-eq true now run y h gone = ground (arith, h, gone)
cancel_found-eq false now run y h gone = ground (arith, h)

execute_cancel-eq :
    (executing : Bool) (now : ℤ) (m : Fields) (run : PipelineRun) (y : PipelineSystem)
    → (run.id == "") ≡ false
    → get_string m "run_id" ≡ run.id
    → lookup run.id y.store.runs ≡ some run
    → execute_cancel executing now m y ≡ (
        if is_cancellable run.status
        then cancel_found executing now run y
        else if is_terminal run.status
        then (done success, y)
        else (refuse err_run_not_cancellable, y))
unfolding execute_cancel get_run
execute_cancel-eq executing now m run y ne named h = ground (arith, ne, named, h)

-- How a run is cancelled that the executor does not have: the run has its end time, and cancelling it
-- again succeeds and changes nothing.
abbrev pub Cancelled : Bool → ℤ → ℤ → Fields → PipelineRun → Ending × PipelineSystem → Type 0
Cancelled executing now later m run r =
    (r.0 ≡ done success)
    × (get_run run.id r.1.store ≡ ok (stopped now run))
    × (execute_cancel executing later m r.1 ≡ (done success, r.1))

-- Cancelling a run that the store has under its own id, that is pending or running and that the executor
-- does not have: the run is then cancelled with its end time, and cancelling it again succeeds and
-- changes nothing.
pub execute_cancel-Cancelled :
    (executing : Bool) (now later : ℤ) (m : Fields) (run : PipelineRun) (y : PipelineSystem)
    → (run.id == "") ≡ false
    → get_string m "run_id" ≡ run.id
    → lookup run.id y.store.runs ≡ some run
    → is_cancellable run.status ≡ true
    → (executing && elem y.running run.id) ≡ false
    → Cancelled executing now later m run (execute_cancel executing now m y)
unfolding get_run
execute_cancel-Cancelled executing now later m run y ne named h can gone =
    let s = with_run (stopped now run) y.store in
    let y' : PipelineSystem = record y { store = set_idle now run.pipeline_id s } in
    let found : lookup run.id y'.store.runs ≡ some (stopped now run) =
      ap (lookup run.id) (set_idle-runs now run.pipeline_id s)
      ∙ lookup-insert_self run.id (stopped now run) y.store.runs in
    let eq : execute_cancel executing now m y ≡ (done success, y') =
      execute_cancel-eq executing now m run y ne named h
      ∙ ground (arith, can, cancel_found-eq executing now run y h gone) in
    subst (Cancelled executing now later m run) (sym eq) (
      refl,
      ground (arith, found),
      execute_cancel-eq executing later m (stopped now run) y' ne named found,
    )
