-- ===== src/Controller/Reconciler.antt =====
-- agentpipeline-operator/internal/controller/agentpipeline_controller.go.
-- A method returns an `Outcome`: the pair of a `ctrl.Result` and no error, an error, or a panic.
-- What a method writes through the pointers `pipeline` and `stageStatus` is a function of the
-- pipeline that it is given; logging is left out.
mod Writes
mod Running
mod Phases
unfoldable pub use Writes.{
  retry_backoff, show_status, agent_request, commit, amend, complete_pipeline, fail_pipeline,
  finish_stage, complete_stage, complete_stage_from_output, fail_stage, retry_stage,
}
unfoldable pub use Running.{
  dispatch_result, handle_answer, run_stage, prompt_stage, execute_stage, recover_or_execute,
  start_stage, fail_or_retry, handle_stage, handle_current, handle_running,
}
unfoldable pub use Phases.{
  begin, handle_pending, handle_deletion, handle_phase, handle_unless_deleted, handle_found,
  handle_fetched, reconcile,
}
