-- ===== src/Unit/Pipeline/Laws.antt =====
-- What the pipeline store (pkg/unit/pipeline/store.go) gives back after it is changed.
use ai_inference_managed_by.Unit.Pipeline.{
  pipeline_not_found, Pipeline, delete_pipeline, PipelineRun, update_run, update_pipeline,
  create_run, create_pipeline, get_run, get_pipeline, MemoryStore,
}
use ai_inference_managed_by.Base.Result.{err, ok}
use ai_inference_managed_by.Base.Map.{lookup, is_some, lookup-insert, lookup-delete}
use ai_inference_managed_by.Base.{if◌then◌else◌, arith, eq_iff, ◌==◌, not, String, ◌≡◌}

-- Creating, updating and deleting a pipeline: what `get_pipeline` then gives for every id, whether
-- the pipeline was there or not. A refused call changes nothing.
pub get_pipeline-after :
    (p : Pipeline) (id k : String) (s : MemoryStore)
    → (get_pipeline k (create_pipeline p s).1 ≡ (
        if is_some (lookup p.id s.pipelines)
        then get_pipeline k s
        else if p.id == k
        then ok p
        else get_pipeline k s))
      × (get_pipeline k (update_pipeline p s).1 ≡ (
          if not (is_some (lookup p.id s.pipelines))
          then get_pipeline k s
          else if p.id == k
          then ok p
          else get_pipeline k s))
      × (get_pipeline k (delete_pipeline id s).1
          ≡ (if id == k then err pipeline_not_found else get_pipeline k s))
unfolding get_pipeline create_pipeline update_pipeline delete_pipeline
get_pipeline-after p id k s = (
  ground (arith, lookup-insert p.id k p s.pipelines),
  ground (arith, lookup-insert p.id k p s.pipelines),
  ground (arith, lookup-delete id k s.pipelines, eq_iff id k),
)

-- Creating and updating a run: what `get_run` then gives for every id.
pub get_run-after :
    (r : PipelineRun) (k : String) (s : MemoryStore)
    → (get_run k (create_run r s).1 ≡ (
        if is_some (lookup r.id s.runs)
        then get_run k s
        else if r.id == k
        then ok r
        else get_run k s))
      × (get_run k (update_run r s).1 ≡ (
          if not (is_some (lookup r.id s.runs))
          then get_run k s
          else if r.id == k
          then ok r
          else get_run k s))
unfolding get_run create_run update_run
get_run-after r k s =
    (ground (arith, lookup-insert r.id k r s.runs), ground (arith, lookup-insert r.id k r s.runs))
