-- ===== src/Copies/Views.antt =====
-- What a cell holds, as a value of one of the types of
-- agentpipeline-operator/api/v1alpha1/agentpipeline_types.go.
use cluster.Prelude.{Str, ℤ, Option, none, some, List}
use cluster.Api.{Time, Duration, StrMap, AgentReference, StageConfig, Condition}
use cluster.Copies.Memory.{
  Cell, StoredAlertmanager, StoredTrigger, StoredRetryPolicy, StoredStageSpec, StoredSpec,
  StoredStageStatus, StoredStatus, StoredPipeline, StoredList,
}

abbrev pub as_int64 : Cell → Option ℤ
as_int64 (Cell.int64 x) = some x
as_int64 _ = none

abbrev pub as_duration : Cell → Option Duration
as_duration (Cell.duration x) = some x
as_duration _ = none

abbrev pub as_time : Cell → Option Time
as_time (Cell.time x) = some x
as_time _ = none

abbrev pub as_strings : Cell → Option (List Str)
as_strings (Cell.strings x) = some x
as_strings _ = none

abbrev pub as_str_map : Cell → Option StrMap
as_str_map (Cell.str_map x) = some x
as_str_map _ = none

abbrev pub as_agent_reference : Cell → Option AgentReference
as_agent_reference (Cell.agent_reference x) = some x
as_agent_reference _ = none

abbrev pub as_stage_config : Cell → Option StageConfig
as_stage_config (Cell.stage_config x) = some x
as_stage_config _ = none

abbrev pub as_retry_policy : Cell → Option StoredRetryPolicy
as_retry_policy (Cell.retry_policy x) = some x
as_retry_policy _ = none

abbrev pub as_alertmanager : Cell → Option StoredAlertmanager
as_alertmanager (Cell.alertmanager x) = some x
as_alertmanager _ = none

abbrev pub as_trigger : Cell → Option StoredTrigger
as_trigger (Cell.trigger x) = some x
as_trigger _ = none

abbrev pub as_stage_spec : Cell → Option StoredStageSpec
as_stage_spec (Cell.stage_spec x) = some x
as_stage_spec _ = none

abbrev pub as_stage_specs : Cell → Option (List StoredStageSpec)
as_stage_specs (Cell.stage_specs x) = some x
as_stage_specs _ = none

abbrev pub as_spec : Cell → Option StoredSpec
as_spec (Cell.spec x) = some x
as_spec _ = none

abbrev pub as_stage_status : Cell → Option StoredStageStatus
as_stage_status (Cell.stage_status x) = some x
as_stage_status _ = none

abbrev pub as_stage_statuses : Cell → Option (List StoredStageStatus)
as_stage_statuses (Cell.stage_statuses x) = some x
as_stage_statuses _ = none

abbrev pub as_conditions : Cell → Option (List Condition)
as_conditions (Cell.conditions x) = some x
as_conditions _ = none

abbrev pub as_status : Cell → Option StoredStatus
as_status (Cell.status x) = some x
as_status _ = none

abbrev pub as_pipeline : Cell → Option StoredPipeline
as_pipeline (Cell.pipeline x) = some x
as_pipeline _ = none

abbrev pub as_pipelines : Cell → Option (List StoredPipeline)
as_pipelines (Cell.pipelines x) = some x
as_pipelines _ = none

abbrev pub as_pipeline_list : Cell → Option StoredList
as_pipeline_list (Cell.pipeline_list x) = some x
as_pipeline_list _ = none
