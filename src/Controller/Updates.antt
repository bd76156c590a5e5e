-- ===== src/Controller/Updates.antt =====
-- What the methods of agentpipeline-operator/internal/controller/agentpipeline_controller.go write
-- through the pointers `pipeline` and `stageStatus`.
use cluster.Prelude.{Str, lit, ℕ, incr_int32, none, some, []}
use cluster.Api.{
  PipelinePhase, StagePhase, Time, StageSpec, StageStatus, Condition, ConditionStatus,
  condition_true, condition_false, AgentPipelineStatus, AgentPipeline,
}
use cluster.Controller.Env.{Env}
use cluster.Controller.Stages.{init_stage_statuses, set_stage}

abbrev pub ready : ConditionStatus → Str → Str → AgentPipeline → Condition
ready status reason message p = record {
  type_of = lit "Ready";
  status = status;
  reason = reason;
  message = message;
  observed_generation = p.meta.generation;
}

-- What each method writes into the pipeline.
module _ (env : Env) where
  abbrev pub with_condition : Condition → AgentPipelineStatus → AgentPipelineStatus
  with_condition c s = record s { conditions = env.set_status_condition s.conditions c }

  unfoldable pub begin_pipeline : Time → StageSpec → AgentPipeline → AgentPipeline
  begin_pipeline now first p =
      let begun = init_stage_statuses (record p {
        status = record p.status {
          phase = PipelinePhase.running;
          started_at = some now;
          current_stage = first.name;
        };
      }) in
      record begun {
        status =
            with_condition
              (ready condition_false (lit "PipelineStarted") (lit "Pipeline execution started") p)
              begun.status;
      }

  unfoldable pub end_pipeline : Time → AgentPipeline → AgentPipeline
  end_pipeline now p = record p {
    status =
        with_condition
          (ready condition_true (lit "PipelineCompleted") (lit "All stages completed successfully")
            p)
          (record p.status {
            phase = PipelinePhase.completed;
            completed_at = some now;
            current_stage = [];
          });
  }

  unfoldable pub abort_pipeline : Time → Str → AgentPipeline → AgentPipeline
  abort_pipeline now reason p = record p {
    status =
        with_condition (ready condition_false (lit "PipelineFailed") reason p)
          (record p.status { phase = PipelinePhase.failed; completed_at = some now });
  }

unfoldable pub begin_stage : Time → ℕ → StageSpec → StageStatus → AgentPipeline → AgentPipeline
begin_stage now i s c p =
    let q = set_stage p i (record c { phase = StagePhase.running; started_at = some now }) in
    record q { status = record q.status { current_stage = s.name } }

unfoldable pub begun : Time → StageStatus → StageStatus
begun now c = record c { phase = StagePhase.running; started_at = some now }

unfoldable pub end_stage : Time → Str → Str → StageStatus → StageStatus
end_stage now output output_ref c = record c {
  phase = StagePhase.completed;
  completed_at = some now;
  output = output;
  output_ref = output_ref;
}

unfoldable pub abort_stage : Time → Str → StageStatus → StageStatus
abort_stage now message c = record c {
  phase = StagePhase.failed;
  completed_at = some now;
  error = message;
}

unfoldable pub reset_stage : StageStatus → StageStatus
reset_stage c = record c {
  retry_count = incr_int32 c.retry_count;
  phase = StagePhase.pending;
  error = [];
  completed_at = none;
}
