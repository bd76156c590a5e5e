-- ===== src/Scenarios/Copied.antt =====
-- A pipeline in memory, with a stage that has inputs, and its deep copy.
use cluster.Prelude.{get_elem?, Str, lit, str_eq, none, some, List, [], ◌∷◌, refl, arith}
use cluster.Api.{PipelinePhase, TriggerType, StageSpec, AgentPipeline}
use cluster.Copies.Memory.{
  Cell, Cells, Heap, TypeMeta, AgentPipelineList, StoredStageSpec, StoredPipeline, StoredList,
}
use cluster.Copies.Views.{as_pipeline, as_pipeline_list}
use cluster.Copies.DeepCopy.{deep_copy_pipeline_object, deep_copy_pipeline_list_object}
use cluster.Copies.Denotation.{
  At, Nullable, null, points, nil, holds, no_more, more, IsPipeline, IsList,
}
use cluster.Copies.Regions.{between}
use cluster.Copies.Independence.{
  Apart, deep_copy_pipeline_object_lem, deep_copy_pipeline_list_object_lem,
}
use cluster.Scenarios.World.{stage_of, demo}
use cluster.Scenarios.Machinery.{machinery, machinery-MachineryCopies}

abbrev kind_of_demo : TypeMeta
kind_of_demo = record {
  kind = lit "AgentPipeline";
  api_version = lit "aiops.cluster69.io/v1alpha1";
}

abbrev inputs_a : List (Str × Str)
inputs_a = (lit "cluster", lit "69") ∷ []

abbrev stage_a : StageSpec
stage_a = record (stage_of (lit "a") []) { inputs = inputs_a }

-- The pipeline, started at the time 7.
abbrev one_stage : AgentPipeline
one_stage = record demo {
  spec = record demo.spec { stages = stage_a ∷ []; retry_policy = none };
  status = record demo.status { started_at = some 7 };
}

abbrev stored_stage : StoredStageSpec
stored_stage = record {
  name = stage_a.name;
  agent_ref = stage_a.agent_ref;
  timeout = none;
  depends_on = none;
  prompt = [];
  inputs = some 1;
  config = none;
  retry_policy = none;
}

abbrev stored_pipeline : StoredPipeline
stored_pipeline = record {
  type_meta = kind_of_demo;
  meta = record {
    name = lit "p";
    namespace = lit "ops";
    generation = 1;
    finalizers = none;
    deletion_timestamp = none;
    labels = none;
    owners = none;
  };
  spec = record {
    trigger = record { type_of = TriggerType.manual; alertmanager = none };
    stages = some 0;
    retry_policy = none;
  };
  status = record {
    phase = PipelinePhase.unset;
    current_stage = [];
    started_at = some 3;
    completed_at = none;
    stages = none;
    conditions = none;
  };
}

abbrev stored_list : StoredList
stored_list = record {
  type_meta = kind_of_demo;
  list_meta = record { resource_version = []; continue_token = []; remaining_item_count = none };
  items = some 4;
}

abbrev memory : Cells
memory = get_elem? (
    Cell.stage_specs (stored_stage ∷ [])
    ∷ Cell.str_map inputs_a
    ∷ Cell.pipeline stored_pipeline
    ∷ Cell.time 7
    ∷ Cell.pipelines (stored_pipeline ∷ [])
    ∷ Cell.pipeline_list stored_list
    ∷ [])

abbrev heap : Heap
heap = record { next = 6; cell = memory }

abbrev used : Cells
used = between 0 heap.next heap.cell

stored_pipeline-IsPipeline : IsPipeline used stored_pipeline (kind_of_demo, one_stage)
unfolding lit str_eq
stored_pipeline-IsPipeline = (
  (nil, null, nil, nil, refl, refl, refl),
  (
    (null, refl),
    holds (
      Cell.stage_specs (stored_stage ∷ []),
      stored_stage ∷ [],
      refl,
      refl,
      more
          (
            null,
            nil,
            holds (Cell.str_map inputs_a, inputs_a, refl, refl, (refl, refl)),
            null,
            null,
            refl,
            refl,
            refl,
          )
          no_more,
    ),
    null,
  ),
  (points (Cell.time 7, 7, refl, refl, refl), null, nil, nil, refl, refl),
  refl,
)

deep_copy_pipeline_object_lem_example :
    Apart
      (Nullable (At as_pipeline IsPipeline))
      (deep_copy_pipeline_object machinery)
      heap
      (some 2)
      (some (kind_of_demo, one_stage))
      1
      6
      (Cell.str_map [])
deep_copy_pipeline_object_lem_example =
    deep_copy_pipeline_object_lem machinery machinery-MachineryCopies heap (some 2)
      (some (kind_of_demo, one_stage)) 1 6 (Cell.str_map [])
      (points
        (Cell.pipeline stored_pipeline, stored_pipeline, refl, refl, stored_pipeline-IsPipeline))
      (omega arith) (omega arith)

abbrev list_of_one : AgentPipelineList
list_of_one = record {
  type_meta = kind_of_demo;
  list_meta = record { resource_version = []; continue_token = []; remaining_item_count = none };
  items = (kind_of_demo, one_stage) ∷ [];
}

deep_copy_pipeline_list_object_lem_example :
    Apart
      (Nullable (At as_pipeline_list IsList))
      (deep_copy_pipeline_list_object machinery)
      heap
      (some 5)
      (some list_of_one)
      0
      7
      (Cell.time 1)
deep_copy_pipeline_list_object_lem_example =
    deep_copy_pipeline_list_object_lem machinery machinery-MachineryCopies heap (some 5)
      (some list_of_one) 0 7 (Cell.time 1)
      (points (
        Cell.pipeline_list stored_list,
        stored_list,
        refl,
        refl,
        (
          (null, refl, refl),
          holds (
            Cell.pipelines (stored_pipeline ∷ []),
            stored_pipeline ∷ [],
            refl,
            refl,
            more stored_pipeline-IsPipeline no_more,
          ),
          refl,
        ),
      ))
      (omega arith) (omega arith)
