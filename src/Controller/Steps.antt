-- ===== src/Controller/Steps.antt =====
-- The state machine of a pipeline's status: the moves that one pass of the reconciler may make.
use cluster.Prelude.{
  Str, ℤ, incr_int32, ltb_ℤ, ℕ, Bool, true, false, none, some, List, [], ◌∷◌, set, ◌≡◌, ◌⊎◌,
}
use cluster.Api.{
  PipelinePhase, StagePhase, Time, StageSpec, StageStatus, AgentPipelineStatus, AgentPipeline,
}
use cluster.Controller.Env.{Env, ConfigMap, Trace}
use cluster.Controller.Outcome.{finalizer_name}
use cluster.Runner.Types.{err}
use cluster.Controller.Stages.{
  no_stage, stage, out_of_range, find_current_stage, are_dependencies_met, init_stages,
  get_effective_retry_policy, output_config_map_name,
}

-- A stage with its name and its retries kept: it succeeds, fails, or is set back for a retry that
-- its policy allows.
pub data StageStep (output_ref : Str) (max : ℤ) (c c' : StageStatus) : Type 0 where
  succeed :
      c.phase ≡ StagePhase.pending
      → c'.phase ≡ StagePhase.completed
      → c'.output_ref ≡ output_ref
      → c'.name ≡ c.name
      → c'.retry_count ≡ c.retry_count
      → StageStep output_ref max c c'
  fail :
      c.phase ≡ StagePhase.pending
      → c'.phase ≡ StagePhase.failed
      → c'.name ≡ c.name
      → c'.retry_count ≡ c.retry_count
      → StageStep output_ref max c c'
  retry :
      c.phase ≡ StagePhase.failed
      → ltb_ℤ c.retry_count max ≡ true
      → c'.phase ≡ StagePhase.pending
      → c'.name ≡ c.name
      → c'.retry_count ≡ incr_int32 c.retry_count
      → StageStep output_ref max c c'

-- A pipeline that has not begun: `case "", PhasePending`.
abbrev pub IsNew : PipelinePhase → Type 0
IsNew phase = (phase ≡ PipelinePhase.unset) ⊎ (phase ≡ PipelinePhase.pending)

-- An answer of the API or of `SetControllerReference` that is an error.
pub data Fault (env : Env) : Type 0 where
  status_refused :
      (t : Trace) (q : AgentPipeline) (e : Str) → env.status_update t q ≡ some e → Fault env
  update_refused : (t : Trace) (q : AgentPipeline) (e : Str) → env.update t q ≡ some e → Fault env
  store_refused :
      (t : Trace) (cm : ConfigMap) (mutate : ConfigMap → ConfigMap) (e : Str)
      → env.create_or_update t cm mutate ≡ some e
      → Fault env
  owner_refused :
      (p : AgentPipeline) (cm : ConfigMap) (e : Str)
      → env.set_controller_reference p cm ≡ err e
      → Fault env

-- `case StagePending`, `case StageFailed` of `handleRunning`.
abbrev pub is_runnable : StagePhase → Bool
is_runnable StagePhase.pending = true
is_runnable StagePhase.failed = true
is_runnable _ = false

-- The move of a status that a pass makes.
pub data StatusStep (p : AgentPipeline) (st : AgentPipelineStatus) : Type 0 where
  start :
      (first : StageSpec) (rest : List StageSpec)
      → IsNew p.status.phase
      → p.spec.stages ≡ first ∷ rest
      → st.phase ≡ PipelinePhase.running
      → st.current_stage ≡ first.name
      → st.stages ≡ init_stages p.spec.stages
      → StatusStep p st
  reject :
      IsNew p.status.phase
      → p.spec.stages ≡ []
      → st.phase ≡ PipelinePhase.failed
      → st.stages ≡ p.status.stages
      → StatusStep p st
  move :
      (i : ℕ) (s : StageSpec) (c c' : StageStatus)
      → p.status.phase ≡ PipelinePhase.running
      → find_current_stage p ≡ stage i s c
      → are_dependencies_met p s ≡ true
      → StageStep
          (output_config_map_name p.meta.name s.name)
          (get_effective_retry_policy p s).max_retries
          c
          c'
      → st.phase ≡ PipelinePhase.running
      → st.stages ≡ set p.status.stages i c'
      → StatusStep p st
  finish :
      p.status.phase ≡ PipelinePhase.running
      → find_current_stage p ≡ no_stage
      → st.phase ≡ PipelinePhase.completed
      → st.stages ≡ p.status.stages
      → StatusStep p st
  give_up :
      (i : ℕ) (s : StageSpec) (c : StageStatus)
      → p.status.phase ≡ PipelinePhase.running
      → find_current_stage p ≡ stage i s c
      → are_dependencies_met p s ≡ true
      → c.phase ≡ StagePhase.failed
      → ltb_ℤ c.retry_count (get_effective_retry_policy p s).max_retries ≡ false
      → st.phase ≡ PipelinePhase.failed
      → st.stages ≡ p.status.stages
      → StatusStep p st

-- Why a pass leaves the stored pipeline as it is.
pub data Idle (env : Env) (p : AgentPipeline) : Type 0 where
  faulty : Fault env → Idle env p
  released :
      {at : Time}
      → p.meta.deletion_timestamp ≡ some at
      → env.contains_finalizer p.meta finalizer_name ≡ false
      → Idle env p
  already_completed : p.status.phase ≡ PipelinePhase.completed → Idle env p
  already_failed : p.status.phase ≡ PipelinePhase.failed → Idle env p
  unknown : (phase : Str) → p.status.phase ≡ PipelinePhase.other phase → Idle env p
  out_of_stages :
      p.status.phase ≡ PipelinePhase.running → find_current_stage p ≡ out_of_range → Idle env p
  waiting :
      (i : ℕ) (s : StageSpec) (c : StageStatus)
      → p.status.phase ≡ PipelinePhase.running
      → find_current_stage p ≡ stage i s c
      → are_dependencies_met p s ≡ false
      → Idle env p
  unexpected :
      (i : ℕ) (s : StageSpec) (c : StageStatus)
      → p.status.phase ≡ PipelinePhase.running
      → find_current_stage p ≡ stage i s c
      → is_runnable c.phase ≡ false
      → Idle env p

-- What a pass makes of the stored pipeline `p`: it stays, with the reason; it gets or loses the
-- finalizer; or its status moves.
pub data Step (env : Env) (p q : AgentPipeline) : Type 0 where
  idle : Idle env p → q ≡ p → Step env p q
  adorn :
      IsNew p.status.phase
      → p.meta.deletion_timestamp ≡ none
      → env.contains_finalizer p.meta finalizer_name ≡ false
      → q ≡ record p { meta = env.add_finalizer p.meta finalizer_name }
      → Step env p q
  release :
      {at : Time}
      → p.meta.deletion_timestamp ≡ some at
      → env.contains_finalizer p.meta finalizer_name ≡ true
      → q ≡ record p { meta = env.remove_finalizer p.meta finalizer_name }
      → Step env p q
  advance :
      (st : AgentPipelineStatus)
      → p.meta.deletion_timestamp ≡ none
      → (IsNew p.status.phase → env.contains_finalizer p.meta finalizer_name ≡ true)
      → StatusStep p st
      → q ≡ record p { status = st }
      → Step env p q
