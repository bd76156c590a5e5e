-- ===== src/Controller/Requeue.antt =====
-- When the reconciler asks to be called again.
use cluster.Prelude.{pos, ltb_ℤ, ℕ, true, false, ◌≡◌, ◌⊎◌}
use cluster.Api.{StagePhase, StageSpec, StageStatus, AgentPipeline}
use cluster.Controller.Env.{Env, Trace}
use cluster.Controller.Stages.{stage, find_current_stage, get_effective_retry_policy}
use cluster.Controller.Outcome.{Outcome}
use cluster.Controller.Reconciler.{retry_backoff}
use cluster.Controller.Server.{stored}
use cluster.Controller.Liveness.{IsTerminal}
use cluster.Controller.Asking.{asks_again}

-- A retry is asked for after no time, so that the pass does not ask to be called again.
pub record HasNoBackoff (p : AgentPipeline) : Type 0 where
  pub index : ℕ
  pub spec : StageSpec
  pub status : StageStatus
  pub current : find_current_stage p ≡ stage index spec status
  pub failed : status.phase ≡ StagePhase.failed
  pub backoff : ltb_ℤ (pos 0) (retry_backoff (get_effective_retry_policy p spec)) ≡ false

module _ (env : Env) where
  module _ (p0 : AgentPipeline) where
    -- A pass that asks to be called again, or leaves a pipeline that is over.
    abbrev pub AsksOrEnds : Outcome × Trace → Type 0
    AsksOrEnds r = (asks_again r.0 ≡ true) ⊎ IsTerminal (stored p0 r.1).status.phase
