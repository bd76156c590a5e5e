-- ===== src/Copies/Denotation.antt =====
-- What a value of the resource in memory stands for: a relation between cells, what lies in them and
-- the value of the model's type. Nil is `none`, and for a slice or a map the empty list.
use cluster.Prelude.{Str, Bool, true, not, ◌&&◌, str_eq, Option, none, some, List, [], ◌∷◌, ◌≡◌}
use cluster.Api.{
  StrMap, Time, Duration, AlertmanagerConfig, TriggerSpec, RetryPolicy, StageSpec,
  AgentPipelineSpec, StageStatus, AgentPipelineStatus, ObjectMeta, AgentPipeline,
}
use cluster.Copies.Memory.{
  Address, Pointer, Cell, Cells, TypeMeta, ListMeta, AgentPipelineList, StoredAlertmanager,
  StoredTrigger, StoredRetryPolicy, StoredStageSpec, StoredSpec, StoredStageStatus, StoredStatus,
  StoredObjectMeta, StoredListMeta, StoredPipeline, StoredList,
}
use cluster.Copies.Views.{
  as_int64, as_duration, as_time, as_strings, as_str_map, as_stage_config, as_retry_policy,
  as_alertmanager, as_stage_specs, as_stage_statuses, as_conditions, as_pipelines,
}

abbrev pub Denotes : Type 0 → Type 0 → Type 1
Denotes G A = Cells → G → A → Type 0

-- A value without pointers stands for itself.
abbrev pub Same : {A : Type 0} → Denotes A A
Same u x v = x ≡ v

-- The address holds something of that type that stands for the value.
abbrev pub At : {G A : Type 0} → (Cell → Option G) → Denotes G A → Denotes Address A
At {G} view R u q v = (c : Cell) × (x : G) × (u q ≡ some c) × (view c ≡ some x) × R u x v

pub data Nullable {A : Type 0} (R : Denotes Address A) (u : Cells)
    : Pointer → Option A → Type 0 where
  null : Nullable R u none none
  points : {q : Address} {v : A} → R u q v → Nullable R u (some q) (some v)

-- A slice or a map.
pub data Sequence {A : Type 0} (R : Denotes Address (List A)) (u : Cells)
    : Pointer → List A → Type 0 where
  nil : Sequence R u none []
  holds : {q : Address} {vs : List A} → R u q vs → Sequence R u (some q) vs

pub data Each {G A : Type 0} (R : Denotes G A) (u : Cells) : List G → List A → Type 0 where
  no_more : Each R u [] []
  more :
      {x : G} {v : A} {xs : List G} {vs : List A}
      → R u x v
      → Each R u xs vs
      → Each R u (x ∷ xs) (v ∷ vs)

-- No entry has that key.
abbrev pub is_new : Str → StrMap → Bool
is_new k [] = true
is_new k ((j, v) ∷ m) = not (str_eq j k) && is_new k m

-- No two entries have the same key.
abbrev pub is_map : StrMap → Bool
is_map [] = true
is_map ((k, v) ∷ m) = is_new k m && is_map m

abbrev pub SameMap : Denotes StrMap StrMap
SameMap u x v = (x ≡ v) × (is_map x ≡ true)

abbrev pub IsTimeAt : Denotes Address Time
IsTimeAt = At as_time Same

abbrev pub IsDuration : Denotes Pointer (Option Duration)
IsDuration = Nullable (At as_duration Same)

abbrev pub IsStrings : Denotes Pointer (List Str)
IsStrings = Sequence (At as_strings Same)

abbrev pub IsStrMap : Denotes Pointer StrMap
IsStrMap = Sequence (At as_str_map SameMap)

abbrev pub IsAlertmanager : Cells → StoredAlertmanager → AlertmanagerConfig → Type 0
IsAlertmanager u x v = IsStrMap u x.match_labels v.match_labels × (x.webhook_port ≡ v.webhook_port)

abbrev pub IsRetryPolicy : Cells → StoredRetryPolicy → RetryPolicy → Type 0
IsRetryPolicy u x v = IsDuration u x.backoff v.backoff × (x.max_retries ≡ v.max_retries)

abbrev pub IsTrigger : Cells → StoredTrigger → TriggerSpec → Type 0
IsTrigger u x v =
    Nullable (At as_alertmanager IsAlertmanager) u x.alertmanager v.alertmanager
    × (x.type_of ≡ v.type_of)

abbrev pub IsStageSpec : Cells → StoredStageSpec → StageSpec → Type 0
IsStageSpec u x v =
    IsDuration u x.timeout v.timeout
    × IsStrings u x.depends_on v.depends_on
    × IsStrMap u x.inputs v.inputs
    × Nullable (At as_stage_config Same) u x.config v.config
    × Nullable (At as_retry_policy IsRetryPolicy) u x.retry_policy v.retry_policy
    × (x.name ≡ v.name)
    × (x.agent_ref ≡ v.agent_ref)
    × (x.prompt ≡ v.prompt)

abbrev pub IsSpec : Cells → StoredSpec → AgentPipelineSpec → Type 0
IsSpec u x v =
    IsTrigger u x.trigger v.trigger
    × Sequence (At as_stage_specs (Each IsStageSpec)) u x.stages v.stages
    × Nullable (At as_retry_policy IsRetryPolicy) u x.retry_policy v.retry_policy

abbrev pub IsStageStatus : Cells → StoredStageStatus → StageStatus → Type 0
IsStageStatus u x v =
    Nullable IsTimeAt u x.started_at v.started_at
    × Nullable IsTimeAt u x.completed_at v.completed_at
    × (x.name ≡ v.name)
    × (x.phase ≡ v.phase)
    × (x.retry_count ≡ v.retry_count)
    × (x.output ≡ v.output)
    × (x.output_ref ≡ v.output_ref)
    × (x.error ≡ v.error)
    × (x.task_id ≡ v.task_id)

abbrev pub IsStatus : Cells → StoredStatus → AgentPipelineStatus → Type 0
IsStatus u x v =
    Nullable IsTimeAt u x.started_at v.started_at
    × Nullable IsTimeAt u x.completed_at v.completed_at
    × Sequence (At as_stage_statuses (Each IsStageStatus)) u x.stages v.stages
    × Sequence (At as_conditions (Each Same)) u x.conditions v.conditions
    × (x.phase ≡ v.phase)
    × (x.current_stage ≡ v.current_stage)

abbrev pub IsObjectMeta : Cells → StoredObjectMeta → ObjectMeta → Type 0
IsObjectMeta u x v =
    IsStrings u x.finalizers v.finalizers
    × Nullable IsTimeAt u x.deletion_timestamp v.deletion_timestamp
    × IsStrMap u x.labels v.labels
    × IsStrings u x.owners v.owners
    × (x.name ≡ v.name)
    × (x.namespace ≡ v.namespace)
    × (x.generation ≡ v.generation)

abbrev pub IsListMeta : Cells → StoredListMeta → ListMeta → Type 0
IsListMeta u x v =
    Nullable (At as_int64 Same) u x.remaining_item_count v.remaining_item_count
    × (x.resource_version ≡ v.resource_version)
    × (x.continue_token ≡ v.continue_token)

-- The object with its type.
abbrev pub IsPipeline : Cells → StoredPipeline → TypeMeta × AgentPipeline → Type 0
IsPipeline u x v =
    IsObjectMeta u x.meta v.1.meta
    × IsSpec u x.spec v.1.spec
    × IsStatus u x.status v.1.status
    × (x.type_meta ≡ v.0)

abbrev pub IsList : Cells → StoredList → AgentPipelineList → Type 0
IsList u x v =
    IsListMeta u x.list_meta v.list_meta
    × Sequence (At as_pipelines (Each IsPipeline)) u x.items v.items
    × (x.type_meta ≡ v.type_meta)
