-- ===== src/Scenarios/Runs.antt =====
-- Runs of the reconciler on concrete pipelines.
use cluster.Prelude.{
  Str, incr_int32, decimal, decimal_ℤ, lit, str_eq, pos, List, [], ◌∷◌, map, ◌≡◌, refl,
}
use cluster.Api.{PipelinePhase, StageStatus, AgentPipelineStatus}
use cluster.Runner.Types.{RunRequest}
use cluster.Controller.Env.{fetch, write, write_status, record_event, clock, invoke, read, store}
use cluster.Controller.Stages.{
  all_in, are_dependencies_met, completed_stages, effective_policy, find_current_stage, find_loop,
  init_stages, output_config_map_name, select, truncate_output, contains, init_stage_statuses,
}
use cluster.Controller.Handler.{
  build_pipeline_context, collect, context_loop, context_step, insert, is_just_before,
  lookup_or_empty, output_config_map, read_config_map_output, render_prompt, replace_output,
  run_template, stage_output, store_output,
}
use cluster.Controller.Updates.{
  abort_pipeline, abort_stage, begin_stage, begun, end_pipeline, end_stage, reset_stage,
  begin_pipeline,
}
use cluster.Controller.Reconciler.{
  reconcile, handle_found, handle_phase, handle_pending, amend, commit, handle_running,
  agent_request, begin, complete_pipeline, complete_stage, complete_stage_from_output,
  dispatch_result, execute_stage, fail_or_retry, fail_pipeline, fail_stage, finish_stage,
  handle_answer, handle_current, handle_deletion, handle_fetched, handle_stage,
  handle_unless_deleted, prompt_stage, recover_or_execute, retry_backoff, retry_stage, run_stage,
  show_status, start_stage,
}
use cluster.Controller.Server.{passes, stored, requests}
use cluster.Scenarios.World.{pipeline_key, demo, demo_world, world, silent}

unfoldable final_status : AgentPipelineStatus
unfolding reconcile handle_found handle_phase handle_pending amend commit handle_running
    agent_request begin complete_pipeline complete_stage complete_stage_from_output dispatch_result
    execute_stage fail_or_retry fail_pipeline fail_stage finish_stage handle_answer handle_current
    handle_deletion handle_fetched handle_stage handle_unless_deleted prompt_stage
    recover_or_execute retry_backoff retry_stage run_stage show_status start_stage fetch write
    write_status record_event clock invoke read store build_pipeline_context collect context_loop
    context_step insert is_just_before lookup_or_empty output_config_map read_config_map_output
    render_prompt replace_output run_template stage_output store_output all_in are_dependencies_met
    completed_stages effective_policy find_current_stage find_loop init_stages
    output_config_map_name select truncate_output contains init_stage_statuses abort_pipeline
    abort_stage begin_stage begun end_pipeline end_stage reset_stage begin_pipeline incr_int32
    decimal decimal_ℤ lit str_eq passes stored requests
final_status = (stored demo (passes demo_world pipeline_key 5 [])).status

final_phase : final_status.phase ≡ PipelinePhase.completed
unfolding final_status
final_phase = refl

-- Stage `b` gets what stage `a` put out.
final_outputs :
    map (λ (c : StageStatus). c.output) final_status.stages
    ≡ lit "Execute agent a-agent!" ∷ lit "Execute agent a-agent!!" ∷ []
unfolding final_status lit
final_outputs = refl

unfoldable asked : List Str
unfolding reconcile handle_found handle_phase handle_pending amend commit handle_running
    agent_request begin complete_pipeline complete_stage complete_stage_from_output dispatch_result
    execute_stage fail_or_retry fail_pipeline fail_stage finish_stage handle_answer handle_current
    handle_deletion handle_fetched handle_stage handle_unless_deleted prompt_stage
    recover_or_execute retry_backoff retry_stage run_stage show_status start_stage fetch write
    write_status record_event clock invoke read store build_pipeline_context collect context_loop
    context_step insert is_just_before lookup_or_empty output_config_map read_config_map_output
    render_prompt replace_output run_template stage_output store_output all_in are_dependencies_met
    completed_stages effective_policy find_current_stage find_loop init_stages
    output_config_map_name select truncate_output contains init_stage_statuses abort_pipeline
    abort_stage begin_stage begun end_pipeline end_stage reset_stage begin_pipeline incr_int32
    decimal decimal_ℤ lit str_eq passes stored requests
asked = map (λ (r : RunRequest). r.prompt) (requests (passes demo_world pipeline_key 9 []))

-- Each agent is asked once, also if the reconciler goes on.
asked_once : asked ≡ lit "Execute agent a-agent!" ∷ lit "Execute agent a-agent" ∷ []
unfolding asked lit
asked_once = refl

unfoldable failed_status : AgentPipelineStatus
unfolding reconcile handle_found handle_phase handle_pending amend commit handle_running
    agent_request begin complete_pipeline complete_stage complete_stage_from_output dispatch_result
    execute_stage fail_or_retry fail_pipeline fail_stage finish_stage handle_answer handle_current
    handle_deletion handle_fetched handle_stage handle_unless_deleted prompt_stage
    recover_or_execute retry_backoff retry_stage run_stage show_status start_stage fetch write
    write_status record_event clock invoke read store build_pipeline_context collect context_loop
    context_step insert is_just_before lookup_or_empty output_config_map read_config_map_output
    render_prompt replace_output run_template stage_output store_output all_in are_dependencies_met
    completed_stages effective_policy find_current_stage find_loop init_stages
    output_config_map_name select truncate_output contains init_stage_statuses abort_pipeline
    abort_stage begin_stage begun end_pipeline end_stage reset_stage begin_pipeline incr_int32
    decimal decimal_ℤ lit str_eq passes stored requests
failed_status = (stored demo (passes (world demo silent) pipeline_key 6 [])).status

failed_phase : failed_status.phase ≡ PipelinePhase.failed
unfolding failed_status
failed_phase = refl

-- One attempt and one retry.
failed_retries : map (λ (c : StageStatus). c.retry_count) failed_status.stages ≡ pos 1 ∷ pos 0 ∷ []
unfolding failed_status
failed_retries = refl
