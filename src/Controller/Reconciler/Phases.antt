-- ===== src/Controller/Reconciler/Phases.antt =====
-- `handlePending`, `handleDeletion` and `Reconcile` of
-- agentpipeline-operator/internal/controller/agentpipeline_controller.go.
use cluster.Prelude.{
  lit, decimal, not, Option, none, some, List, [], ◌∷◌, ◌++◌, length, if◌then◌else◌,
}
use cluster.Api.{PipelinePhase, Time, StageSpec, AgentPipeline}
use cluster.Controller.Env.{
  Env, ObjectKey, Fetched, found, not_found, unreachable, normal, M, pure, ◌>>=◌, fetch, clock,
}
use cluster.Controller.Outcome.{finalizer_name, Outcome, failure, stop, again}
use cluster.Controller.Updates.{begin_pipeline}
use cluster.Controller.Reconciler.Writes.{commit, amend, fail_pipeline}
use cluster.Controller.Reconciler.Running.{handle_running}

module _ (env : Env) where
  unfoldable pub begin : AgentPipeline → List StageSpec → M Outcome
  begin p [] = fail_pipeline env p (lit "no stages defined")
  begin p (first ∷ rest) = do
    now ← clock env
    commit env (begin_pipeline env now first p) (lit "updating status to Running: ") normal
        (lit "PipelineStarted")
        (lit "Pipeline started with " ++ (decimal (length p.spec.stages) ++ lit " stages")) again

  unfoldable pub handle_pending : AgentPipeline → M Outcome
  unfolding begin
  handle_pending p =
      if not (env.contains_finalizer p.meta finalizer_name)
      then amend env (record p { meta = env.add_finalizer p.meta finalizer_name })
          (lit "adding finalizer: ") again
      else begin p p.spec.stages

  unfoldable pub handle_deletion : AgentPipeline → M Outcome
  handle_deletion p =
      if not (env.contains_finalizer p.meta finalizer_name)
      then pure stop
      else amend env (record p { meta = env.remove_finalizer p.meta finalizer_name })
          (lit "removing finalizer: ") stop

  unfoldable pub handle_phase : PipelinePhase → AgentPipeline → M Outcome
  handle_phase PipelinePhase.unset p = handle_pending p
  handle_phase PipelinePhase.pending p = handle_pending p
  handle_phase PipelinePhase.running p = handle_running env p
  handle_phase PipelinePhase.completed p = pure stop
  handle_phase PipelinePhase.failed p = pure stop
  handle_phase (PipelinePhase.other _) p = pure stop

  -- `reconcile` behind its test of the deletion timestamp.
  unfoldable pub handle_unless_deleted : Option Time → AgentPipeline → M Outcome
  handle_unless_deleted (some _) p = handle_deletion p
  handle_unless_deleted none p = handle_phase p.status.phase p

  unfoldable pub handle_found : AgentPipeline → M Outcome
  unfolding handle_unless_deleted
  handle_found p = handle_unless_deleted p.meta.deletion_timestamp p

  unfoldable pub handle_fetched : Fetched → M Outcome
  handle_fetched not_found = pure stop
  handle_fetched (unreachable e) = pure (failure e)
  handle_fetched (found p) = handle_found p

  unfoldable pub reconcile : ObjectKey → M Outcome
  unfolding handle_fetched
  reconcile key = do answer ← fetch env key; handle_fetched answer
