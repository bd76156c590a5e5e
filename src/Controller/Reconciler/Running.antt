-- ===== src/Controller/Reconciler/Running.antt =====
-- `handleRunning` and `startStage` of agentpipeline-operator/internal/controller/agentpipeline_controller.go.
use cluster.Prelude.{Str, lit, decimal_ℤ, ℕ, ltb_ℤ, not, ◌++◌, if◌then◌else◌}
use cluster.Api.{StagePhase, StageSpec, StageStatus, AgentPipeline}
use cluster.Runner.Types.{Result, ok, err, RunStatus, RunResult}
use cluster.Controller.Env.{Env, normal, M, pure, ◌>>=◌, ◌>>◌, invoke, clock, record_event}
use cluster.Controller.Stages.{
  FoundStage, no_stage, stage, out_of_range, find_current_stage, are_dependencies_met,
  get_effective_retry_policy, output_config_map_name,
}
use cluster.Controller.Handler.{
  PipelineContext, read_config_map_output, build_pipeline_context, render_prompt,
}
use cluster.Controller.Outcome.{requeue_delay, Outcome, panic, later}
use cluster.Controller.Updates.{begun, begin_stage}
use cluster.Controller.Reconciler.Writes.{
  show_status, agent_request, complete_pipeline, fail_pipeline, complete_stage,
  complete_stage_from_output, fail_stage, retry_stage,
}

module _ (env : Env) where
  unfoldable pub dispatch_result :
      RunStatus → AgentPipeline → ℕ → StageSpec → StageStatus → RunResult → M Outcome
  unfolding show_status
  dispatch_result RunStatus.completed p i s c result = complete_stage env p i s c result
  dispatch_result RunStatus.failed p i s c result = fail_stage env p i c result.error
  dispatch_result RunStatus.timed_out p i s c result =
      fail_stage env p i c (lit "agent execution timed out")
  dispatch_result status p i s c result =
      fail_stage env p i c (lit "unexpected run status: " ++ show_status status)

  -- `startStage` behind its call of `RunAgent`.
  unfoldable pub handle_answer :
      Result RunResult → AgentPipeline → ℕ → StageSpec → StageStatus → M Outcome
  handle_answer (err e) p i s c = fail_stage env p i c (lit "invoking agent: " ++ e)
  handle_answer (ok result) p i s c = dispatch_result result.status p i s c result

  -- `startStage` behind its call of `RenderPrompt`.
  unfoldable pub run_stage : Result Str → AgentPipeline → ℕ → StageSpec → StageStatus → M Outcome
  run_stage (err e) p i s c = fail_stage env p i c (lit "rendering prompt: " ++ e)
  run_stage (ok prompt) p i s c = do
    answer ← invoke env (agent_request p s prompt)
    handle_answer answer p i s c

  -- `startStage` behind its call of `BuildPipelineContext`.
  unfoldable pub prompt_stage :
      Result PipelineContext → AgentPipeline → ℕ → StageSpec → StageStatus → M Outcome
  prompt_stage (err e) p i s c = fail_stage env p i c (lit "building pipeline context: " ++ e)
  prompt_stage (ok pc) p i s c = run_stage (render_prompt env s pc) p i s c

  -- `startStage` behind its guard; `p` and `c` are begun.
  unfoldable pub execute_stage : AgentPipeline → ℕ → StageSpec → StageStatus → M Outcome
  execute_stage p i s c = do
    record_event normal (lit "StageStarted") (
        lit "Stage "
        ++ (env.quote s.name ++ (lit " started (agent: " ++ (s.agent_ref.name ++ lit ")"))))
    context ← build_pipeline_context env p s
    prompt_stage context p i s c

  -- `startStage` behind the read of the stage's own output.
  unfoldable pub recover_or_execute :
      Result Str → AgentPipeline → ℕ → StageSpec → StageStatus → M Outcome
  recover_or_execute (ok output) p i s c = complete_stage_from_output env p i s c output
  recover_or_execute (err _) p i s c = do
    now ← clock env
    execute_stage (begin_stage now i s c p) i s (begun now c)

  unfoldable pub start_stage : AgentPipeline → ℕ → StageSpec → StageStatus → M Outcome
  start_stage p i s c = do
    existing ←
        read_config_map_output env p.meta.namespace (output_config_map_name p.meta.name s.name)
    recover_or_execute existing p i s c

  unfoldable pub fail_or_retry : AgentPipeline → ℕ → StageSpec → StageStatus → M Outcome
  fail_or_retry p i s c =
      let policy = get_effective_retry_policy p s in
      if ltb_ℤ c.retry_count policy.max_retries
      then retry_stage env p i s c policy
      else fail_pipeline env p (
          lit "stage "
          ++ (env.quote s.name
              ++ (lit " failed after "
                  ++ (decimal_ℤ c.retry_count ++ (lit " retries: " ++ c.error)))))

  unfoldable pub handle_stage : StagePhase → AgentPipeline → ℕ → StageSpec → StageStatus → M Outcome
  handle_stage StagePhase.pending p i s c = start_stage p i s c
  handle_stage StagePhase.failed p i s c = fail_or_retry p i s c
  handle_stage _ p i s c = pure (later requeue_delay)

  unfoldable pub handle_current : FoundStage → AgentPipeline → M Outcome
  handle_current no_stage p = complete_pipeline env p
  handle_current out_of_range p = pure panic
  handle_current (stage i s c) p =
      if not (are_dependencies_met p s)
      then pure (later requeue_delay)
      else handle_stage c.phase p i s c

  unfoldable pub handle_running : AgentPipeline → M Outcome
  unfolding handle_current
  handle_running p = handle_current (find_current_stage p) p
