-- ===== src/Unit/Pipeline.antt =====
-- Pipelines and their runs: pkg/unit/pipeline/types.go and the in-memory store of
-- pkg/unit/pipeline/store.go. The mutex makes each method one step. The store keeps pipelines by
-- pointer, so a caller that writes to one it was given writes to the store; here the caller puts the
-- changed pipeline back with `update_pipeline`, as the executor does.
pub mod Laws
pub mod Executor
pub mod Steps
pub mod Commands
pub mod Create
use ai_inference_managed_by.Base.{
  length, ◌&&◌, ◌==◌, some, none, not, ◌∷◌, if◌then◌else◌, [], Option, List, ℕ, String,
}
use ai_inference_managed_by.Unit.Page.{page}
use ai_inference_managed_by.Base.Result.{ok, err, Result}
use ai_inference_managed_by.Base.Map.{insert, delete, is_some, values, lookup, Map}
use ai_inference_managed_by.Workflow.Types.{Fields, Value}
use ai_inference_managed_by.Base.Int.{ℤ}

-- PipelineStatus and RunStatus are Go strings; a filter uses the empty one.
pub record PipelineStep : Type 0 where
  pub id : String
  pub name : String
  pub type : String
  pub input : Fields
  pub depends_on : List String

pub record Pipeline : Type 0 where
  pub id : String
  pub name : String
  pub steps : List PipelineStep
  pub status : String
  pub config : Option Fields
  pub created_at : ℤ
  pub updated_at : ℤ

-- The times of a run are Unix times here; `completed_at` is nil until the run ends.
pub record PipelineRun : Type 0 where
  pub id : String
  pub pipeline_id : String
  pub status : String
  pub input : Option Fields
  pub step_results : Map Fields
  pub error : String
  pub started_at : ℤ
  pub completed_at : Option ℤ

pub record PipelineFilter : Type 0 where
  pub status : String
  pub limit : ℤ
  pub offset : ℤ

pub data StoreError : Type 0 where
  pipeline_not_found pipeline_already_exists run_not_found : StoreError

pub record MemoryStore : Type 0 where
  pub pipelines : Map Pipeline
  pub runs : Map PipelineRun

abbrev pub new_memory_store : MemoryStore
new_memory_store = record { pipelines = []; runs = [] }

unfoldable pub create_pipeline : Pipeline → MemoryStore → Option StoreError × MemoryStore
create_pipeline p s =
    if is_some (lookup p.id s.pipelines)
    then (some pipeline_already_exists, s)
    else (none, record s { pipelines = insert p.id p s.pipelines })

unfoldable pub get_pipeline : String → MemoryStore → Result StoreError Pipeline
get_pipeline id s = elim (lookup id s.pipelines) [ none ↦ err pipeline_not_found | some p ↦ ok p ]

-- The `continue` guard of the loop of ListPipelines.
unfoldable pub select_pipelines : String → List Pipeline → List Pipeline
select_pipelines status [] = []
select_pipelines status (p ∷ ps) =
    let rest = select_pipelines status ps in
    if not (status == "") && not (p.status == status) then rest else p ∷ rest

-- The page and the total; `none` is a panic.
unfoldable pub list_pipelines : PipelineFilter → MemoryStore → Option (List Pipeline × ℕ)
list_pipelines f s =
    let result = select_pipelines f.status (values s.pipelines) in
    elim (page f.offset f.limit result) [ none ↦ none | some window ↦ some (window, length result) ]

unfoldable pub delete_pipeline : String → MemoryStore → Option StoreError × MemoryStore
delete_pipeline id s =
    if is_some (lookup id s.pipelines)
    then (none, record s { pipelines = delete id s.pipelines })
    else (some pipeline_not_found, s)

unfoldable pub update_pipeline : Pipeline → MemoryStore → Option StoreError × MemoryStore
update_pipeline p s =
    if is_some (lookup p.id s.pipelines)
    then (none, record s { pipelines = insert p.id p s.pipelines })
    else (some pipeline_not_found, s)

-- copyRun gives back an equal run: a value here, so the run itself.
unfoldable pub create_run : PipelineRun → MemoryStore → Option StoreError × MemoryStore
create_run r s =
    if is_some (lookup r.id s.runs)
    then (some run_not_found, s)
    else (none, record s { runs = insert r.id r s.runs })

unfoldable pub get_run : String → MemoryStore → Result StoreError PipelineRun
get_run id s = elim (lookup id s.runs) [ none ↦ err run_not_found | some r ↦ ok r ]

unfoldable pub list_runs : String → List PipelineRun → List PipelineRun
list_runs pipeline_id [] = []
list_runs pipeline_id (r ∷ rs) =
    let rest = list_runs pipeline_id rs in
    if not (pipeline_id == "") && not (r.pipeline_id == pipeline_id) then rest else r ∷ rest

unfoldable pub update_run : PipelineRun → MemoryStore → Option StoreError × MemoryStore
update_run r s =
    if is_some (lookup r.id s.runs)
    then (none, record s { runs = insert r.id r s.runs })
    else (some run_not_found, s)
