-- ===== src/Controller/Reconciler/Writes.antt =====
-- The methods of agentpipeline-operator/internal/controller/agentpipeline_controller.go
-- that end in a write: of a stage, or of the whole pipeline.
use cluster.Prelude.{
  Str, lit, decimal, decimal_ℤ, is_empty, ℕ, ◌*◌, pos, none, some, [], ◌++◌, length, if◌then◌else◌,
}
use cluster.Api.{Duration, StageSpec, StageStatus, RetryPolicy, AgentPipeline}
use cluster.Runner.Types.{Result, ok, err, RunStatus, RunRequest, RunResult}
use cluster.Controller.Env.{
  Env, EventType, normal, warning, M, pure, ◌>>=◌, ◌>>◌, write, write_status, clock, record_event,
}
use cluster.Controller.Stages.{output_config_map_name, truncate_output, set_stage}
use cluster.Controller.Handler.{store_output}
use cluster.Controller.Outcome.{second, Outcome, failure, stop, again, later, unless_error}
use cluster.Controller.Updates.{end_pipeline, abort_pipeline, end_stage, abort_stage, reset_stage}

-- The backoff of the policy, 30 seconds if it has none.
unfoldable pub retry_backoff : RetryPolicy → Duration
retry_backoff policy = elim policy.backoff [ some d ↦ d | none ↦ pos (30 * second) ]

-- The text of an unexpected `result.Status`, by the verb %s.
unfoldable pub show_status : RunStatus → Str
show_status RunStatus.unset = []
show_status RunStatus.completed = lit "Completed"
show_status RunStatus.failed = lit "Failed"
show_status RunStatus.timed_out = lit "TimedOut"
show_status (RunStatus.other s) = s

unfoldable pub agent_request : AgentPipeline → StageSpec → Str → RunRequest
agent_request p s prompt = record {
  agent_name = s.agent_ref.name;
  namespace = if is_empty s.agent_ref.namespace then p.meta.namespace else s.agent_ref.namespace;
  prompt = prompt;
  timeout = elim s.timeout [ some d ↦ d | none ↦ pos (5 * 60 * second) ];
}

module _ (env : Env) where
  -- `if err := r.Status().Update(ctx, pipeline); err != nil`, and behind it the event and the return.
  unfoldable pub commit : AgentPipeline → Str → EventType → Str → Str → Outcome → M Outcome
  commit q prefix type reason message outcome = do
    e ← write_status env q
    unless_error e prefix do record_event type reason message; pure outcome

  -- `if err := r.Update(ctx, pipeline); err != nil`, and behind it the return.
  unfoldable pub amend : AgentPipeline → Str → Outcome → M Outcome
  amend q prefix outcome = do e ← write env q; unless_error e prefix (pure outcome)

  unfoldable pub complete_pipeline : AgentPipeline → M Outcome
  complete_pipeline p = do
    now ← clock env
    commit (end_pipeline env now p) (lit "updating pipeline to Completed: ") normal
        (lit "PipelineCompleted")
        (lit "Pipeline completed all " ++ (decimal (length p.spec.stages) ++ lit " stages")) stop

  unfoldable pub fail_pipeline : AgentPipeline → Str → M Outcome
  fail_pipeline p reason = do
    now ← clock env
    commit (abort_pipeline env now reason p) (lit "updating pipeline to Failed: ") warning
        (lit "PipelineFailed") reason stop

  -- `completeStage` behind its call of `StoreOutput`; `i` is the index of the stage whose status is
  -- `c`.
  unfoldable pub finish_stage :
      Result (Str × Str) → AgentPipeline → ℕ → StageSpec → StageStatus → RunResult → M Outcome
  finish_stage (err e) p i s c result =
      pure (failure (lit "storing output for stage " ++ (env.quote s.name ++ (lit ": " ++ e))))
  finish_stage (ok (name, truncated)) p i s c result = do
    now ← clock env
    commit (set_stage p i (record (end_stage now truncated name c) { task_id = result.task_id }))
        (lit "updating stage " ++ (env.quote s.name ++ lit " to Completed: ")) normal
        (lit "StageCompleted")
        (lit "Stage "
          ++ (env.quote s.name ++ (lit " completed in " ++ env.show_seconds result.duration)))
        again

  unfoldable pub complete_stage :
      AgentPipeline → ℕ → StageSpec → StageStatus → RunResult → M Outcome
  complete_stage p i s c result = do
    stored ← store_output env p s.name result.output
    finish_stage stored p i s c result

  unfoldable pub complete_stage_from_output :
      AgentPipeline → ℕ → StageSpec → StageStatus → Str → M Outcome
  complete_stage_from_output p i s c output = do
    now ← clock env
    commit
        (set_stage p i
          (end_stage now (truncate_output output) (output_config_map_name p.meta.name s.name) c))
        (lit "recovering stage " ++ (env.quote s.name ++ lit " to Completed: ")) normal
        (lit "StageCompleted") (lit "Stage " ++ (env.quote s.name ++ lit " completed (recovered)"))
        again

  unfoldable pub fail_stage : AgentPipeline → ℕ → StageStatus → Str → M Outcome
  fail_stage p i c message = do
    now ← clock env
    commit (set_stage p i (abort_stage now message c))
        (lit "updating stage " ++ (env.quote c.name ++ lit " to Failed: ")) warning
        (lit "StageFailed") (lit "Stage " ++ (env.quote c.name ++ (lit " failed: " ++ message)))
        again

  unfoldable pub retry_stage : AgentPipeline → ℕ → StageSpec → StageStatus → RetryPolicy → M Outcome
  unfolding retry_backoff
  retry_stage p i s c policy = do
    let again_c = reset_stage c
    commit (set_stage p i again_c)
        (lit "updating stage " ++ (env.quote s.name ++ lit " for retry: ")) normal
        (lit "StageRetry")
        (lit "Retrying stage "
          ++ (env.quote s.name
              ++ (lit " (attempt "
                  ++ (decimal_ℤ again_c.retry_count
                      ++ (lit "/" ++ (decimal_ℤ policy.max_retries ++ lit ")"))))))
        (later (retry_backoff policy))
