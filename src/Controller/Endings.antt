-- ===== src/Controller/Endings.antt =====
-- What a run of a stage may leave in the stored pipeline.
use cluster.Prelude.{Str, ℕ, set, subst, ◌≡◌, refl, ◌⊎◌, inl, inr}
use cluster.Api.{StagePhase, StageStatus, AgentPipelineStatus, AgentPipeline}
use cluster.Controller.Env.{Env}
use cluster.Controller.Stages.{set_stage}
use cluster.Controller.Steps.{Fault}
use cluster.Controller.Writes.{MayWrite}

-- The end of a run of a stage: its name and retries are kept.
pub record Ended (ref : Str) (c c' : StageStatus) : Type 0 where
  pub name : c'.name ≡ c.name
  pub retries : c'.retry_count ≡ c.retry_count
  pub phase :
      (c'.phase ≡ StagePhase.failed) ⊎ ((c'.phase ≡ StagePhase.completed) × (c'.output_ref ≡ ref))

-- The stored pipeline is untouched, or has the status of `p` with stage `i` ended.
pub data MayEnd (env : Env) (ref : Str) (p : AgentPipeline) (i : ℕ) (c : StageStatus)
    (old new : AgentPipeline) : Type 0 where
  untouched : Fault env → new ≡ old → MayEnd env ref p i c old new
  ended :
      (c' : StageStatus)
      → Ended ref c c'
      → new ≡ record old { status = (set_stage p i c').status }
      → MayEnd env ref p i c old new

-- The same, with the current stage and the times of `p` left open.
pub data StageEnd (env : Env) (ref : Str) (p : AgentPipeline) (i : ℕ) (c : StageStatus)
    (old new : AgentPipeline) : Type 0 where
  idle : Fault env → new ≡ old → StageEnd env ref p i c old new
  done :
      (c' : StageStatus)
      → Ended ref c c'
      → (st : AgentPipelineStatus) → new ≡ record old { status = st }
      → st.phase ≡ p.status.phase
      → st.stages ≡ set p.status.stages i c'
      → StageEnd env ref p i c old new

pub MayWrite-MayEnd :
    {env : Env} {ref : Str} {p : AgentPipeline} {i : ℕ} {c : StageStatus} {old new : AgentPipeline}
    (c' : StageStatus)
    → Ended ref c c'
    → MayWrite env old new (set_stage p i c').status
    → MayEnd env ref p i c old new
MayWrite-MayEnd c' e (inl (f, h)) = untouched f h
MayWrite-MayEnd c' e (inr h) = ended c' e h

pub MayEnd-from :
    {env : Env} {ref : Str} {p : AgentPipeline} {i : ℕ} {c : StageStatus}
    {old mid new : AgentPipeline}
    → mid ≡ old
    → MayEnd env ref p i c mid new
    → MayEnd env ref p i c old new
MayEnd-from {env} {ref} {p} {i} {c} {new = new} e h = subst (λ x. MayEnd env ref p i c x new) e h

pub MayEnd-StageEnd :
    {env : Env} {ref : Str} {p : AgentPipeline} {i : ℕ} {c : StageStatus} {old new : AgentPipeline}
    → MayEnd env ref p i c old new
    → StageEnd env ref p i c old new
MayEnd-StageEnd (untouched f h) = idle f h
MayEnd-StageEnd (ended c' e h) = done c' e _ h refl refl
