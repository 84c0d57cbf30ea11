-- ===== src/Unit/Pipeline/Commands/Races.antt =====
-- Two runs of one pipeline (pkg/unit/pipeline/commands.go): the status of the pipeline follows the run
-- that ended last, not the runs that the executor still has.
use ai_inference_managed_by.Base.{
  String, true, false, ◌≡◌, ap, ◌∙◌, elem, elem-remove_ne, none, some, ◌==◌, arith, eq_iff, eq_refl,
}
use ai_inference_managed_by.Base.Int.{ℤ}
use ai_inference_managed_by.Base.Map.{Map, lookup, is_some}
use ai_inference_managed_by.Base.Result.{ok, err}
use ai_inference_managed_by.Workflow.Types.{Fields}
use ai_inference_managed_by.Unit.Execution.{done, get_string, success}
use ai_inference_managed_by.Unit.Pipeline.{
  Pipeline, PipelineRun, MemoryStore, pipeline_not_found, get_pipeline, get_run,
}
use ai_inference_managed_by.Unit.Pipeline.Executor as Executor
use ai_inference_managed_by.Unit.Pipeline.Executor.Promise.{
  get_run-finish_run, get_pipeline-finish_run,
}
use ai_inference_managed_by.Unit.Pipeline.Commands.{
  PipelineSystem, execute_run, execute_delete, end_run, new_run,
}
use ai_inference_managed_by.Unit.Pipeline.Commands.Promise.{
  begun, busy, execute_run-Started, execute_delete-outcome,
}

lookup-of_get :
    (k : String) (p : Pipeline) (s : MemoryStore)
    → get_pipeline k s ≡ ok p
    → lookup k s.pipelines ≡ some p
unfolding get_pipeline
lookup-of_get k p s h = ground (arith, h)

is_some-of_get :
    (k : String) (r : PipelineRun) (s : MemoryStore)
    → get_run k s ≡ ok r
    → is_some (lookup k s.runs) ≡ true
unfolding get_run
is_some-of_get k r s h = ground (arith, h)

missing-of_get :
    (k : String) (s t : MemoryStore)
    → get_run k s ≡ get_run k t
    → lookup k t.runs ≡ none
    → lookup k s.runs ≡ none
unfolding get_run
missing-of_get k s t e h = ground (arith, e, h)

get_run-runs : (k : String) (s t : MemoryStore) → s.runs ≡ t.runs → get_run k s ≡ get_run k t
unfolding get_run
get_run-runs k s t h = ground (arith, h)

module _ (outcome : Executor.Ending × Map Fields) (now : ℤ) (p : Pipeline) (run : PipelineRun)
    (y : PipelineSystem) (h : get_pipeline p.id y.store ≡ ok p)
    (there : is_some (lookup run.id y.store.runs) ≡ true) where
  end_run-pipeline :
      get_pipeline p.id (end_run outcome now p.id run y).store
      ≡ ok (record p { status = "idle"; updated_at = now })
  unfolding end_run get_pipeline
  end_run-pipeline =
      get_pipeline-finish_run outcome now p.id run y.store p.id
        (λ q found. ground (arith, found, lookup-of_get p.id p y.store h))
      ∙ ground (arith, h, eq_refl p.id)

  end_run-run :
      (k : String)
      → (run.id == k) ≡ false
      → get_run k (end_run outcome now p.id run y).store ≡ get_run k y.store
  unfolding end_run
  end_run-run k ne = get_run-finish_run outcome now p.id run y.store k there ∙ ground (arith, ne)

-- On a pipeline that the store has under its own id, start two runs, let the first one end in any way,
-- and delete the pipeline: the deletion succeeds, and the pipeline is gone, while the second run is
-- still stored as running and still among the executor's runs.
pub delete_during_run :
    (first second : String) (t1 t2 t3 : ℤ) (m : Fields) (p : Pipeline) (y : PipelineSystem)
    (outcome : Executor.Ending × Map Fields)
    → (first == second) ≡ false
    → (p.id == "") ≡ false
    → get_string m "pipeline_id" ≡ p.id
    → lookup p.id y.store.pipelines ≡ some p
    → lookup first y.store.runs ≡ none
    → lookup second y.store.runs ≡ none
    → let y1 = (execute_run true first t1 m y).1 in
      let y2 = (execute_run true second t2 m y1).1 in
      let y3 = end_run outcome t3 p.id (begun t1 (new_run first t1 m)) y2 in
      let r = execute_delete m y3 in
      (r.0 ≡ done success)
      × (get_pipeline p.id r.1.store ≡ err pipeline_not_found)
      × (get_run second r.1.store ≡ ok (begun t2 (new_run second t2 m)))
      × (elem r.1.running second ≡ true)
unfolding end_run
delete_during_run first second t1 t2 t3 m p y outcome apart ne named h new1 new2 =
    let y1 = (execute_run true first t1 m y).1 in
    let y2 = (execute_run true second t2 m y1).1 in
    let run1 = begun t1 (new_run first t1 m) in
    let y3 = end_run outcome t3 p.id run1 y2 in
    let (ok1, pipelines1, runs1, running1) = execute_run-Started first t1 m p y ne named h new1 in
    let there1 : lookup p.id y1.store.pipelines ≡ some (busy t1 p) =
      lookup-of_get p.id (busy t1 p) y1.store (pipelines1 p.id ∙ ground (arith, eq_refl p.id)) in
    let still_new : lookup second y1.store.runs ≡ none =
      missing-of_get second y1.store y.store (runs1 second ∙ ground (arith, apart)) new2 in
    let (ok2, pipelines2, runs2, running2) =
      execute_run-Started second t2 m (busy t1 p) y1 ne named there1 still_new in
    let p2 = busy t2 p in
    let there2 : get_pipeline p.id y2.store ≡ ok p2 =
      pipelines2 p.id ∙ ground (arith, eq_refl p.id) in
    let found1 : is_some (lookup first y2.store.runs) ≡ true = is_some-of_get first run1 y2.store (
      runs2 first
      ∙ ground
          (arith, eq_iff second first, eq_iff first second, apart, runs1 first, eq_refl first)) in
    let idle = end_run-pipeline outcome t3 p2 run1 y2 there2 found1 in
    let kept = end_run-run outcome t3 p2 run1 y2 there2 found1 second apart in
    let p3 : Pipeline = record p2 { status = "idle"; updated_at = t3 } in
    let (deleted, gone, runs_stay, running_stay) =
      execute_delete-outcome m p3 y3 p.id (ap (λ i. i == "") named ∙ ne)
        (ap (λ i. lookup i y3.store.pipelines) named ∙ lookup-of_get p.id p3 y3.store idle) in
    (
      deleted,
      gone ∙ ground (arith, named, eq_refl p.id),
      get_run-runs second _ y3.store runs_stay
          ∙ kept
          ∙ runs2 second
          ∙ ground (arith, eq_refl second),
      ap (λ xs. elem xs second) running_stay
          ∙ elem-remove_ne first second y2.running apart
          ∙ running2 second
          ∙ ground (arith, eq_refl second),
    )
