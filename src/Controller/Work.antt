-- ===== src/Controller/Work.antt =====
-- A measure of what a pipeline has left to do: it falls with every step that is not idle.
use cluster.Prelude.{
  pos_part, ltb_ℤ, pos, incr_int32, max_int32, incr_int32_exact, ℕ, zero, suc, ◌+◌, ◌-◌, ◌*◌, ◌≤◌,
  ◌<◌, Bool, true, Option, some, List, [], ◌∷◌, set, get_elem?, ◌≡◌, ◌≢◌, refl, sym, ap, ◌∙◌, ◌⊎◌,
  inl, inr, arith, if◌then◌else◌,
}
use cluster.Api.{PipelinePhase, StagePhase, StageSpec, StageStatus, RetryPolicy, AgentPipeline}
use cluster.Controller.Env.{Env}
use cluster.Controller.Stages.{init_stages}
use cluster.Controller.Outcome.{finalizer_name}
use cluster.Controller.Steps.{IsNew, StageStep, succeed, fail, retry}
use cluster.Controller.Progress.{Statuses, Within, max_of}

-- Attempts left, twice, and one more for a pending stage than for a failed one.
abbrev pub phase_work : StagePhase → ℕ → ℕ
phase_work StagePhase.pending left = 2 * left + 2
phase_work StagePhase.failed left = 2 * left + 1
phase_work _ left = 0

abbrev pub stage_work : Option RetryPolicy → StageSpec → StageStatus → ℕ
stage_work fallback s c = phase_work c.phase (pos_part (max_of fallback s) - pos_part c.retry_count)

unfoldable pub total_work : Option RetryPolicy → List StageSpec → Statuses → ℕ
total_work fallback (s ∷ ss) (c ∷ cs) = stage_work fallback s c + total_work fallback ss cs
total_work fallback _ _ = 0

abbrev pub status_work : PipelinePhase → Bool → AgentPipeline → ℕ
status_work PipelinePhase.unset held p =
    (if held then 2 else 3)
    + total_work p.spec.retry_policy p.spec.stages (init_stages p.spec.stages)
status_work PipelinePhase.pending held p =
    (if held then 2 else 3)
    + total_work p.spec.retry_policy p.spec.stages (init_stages p.spec.stages)
status_work PipelinePhase.running held p =
    suc (total_work p.spec.retry_policy p.spec.stages p.status.stages)
status_work _ held p = 0

-- Without the finalizer a pipeline that has not begun has one thing more to do.
unfoldable pub work : Env → AgentPipeline → ℕ
work env p = status_work p.status.phase (env.contains_finalizer p.meta finalizer_name) p

-- Another status of one stage changes the total by the difference.
pub total_work-set :
    (fallback : Option RetryPolicy) (ss : List StageSpec) (cs : Statuses) (i : ℕ) (s : StageSpec)
    (c c' : StageStatus)
    → get_elem? ss i ≡ some s
    → get_elem? cs i ≡ some c
    → total_work fallback ss (set cs i c') + stage_work fallback s c
      ≡ total_work fallback ss cs + stage_work fallback s c'
unfolding total_work
total_work-set fallback [] cs i s c c' h k = cc
total_work-set fallback (s₀ ∷ ss) [] i s c c' h k = cc
total_work-set fallback (s₀ ∷ ss) (c₀ ∷ cs) zero s c c' h k =
    let same_s : s₀ ≡ s = cc in
    let same_c : c₀ ≡ c = cc in
    omega (
      arith,
      ap (λ r. stage_work fallback r c) same_s,
      ap (stage_work fallback s₀) same_c,
      ap (λ r. stage_work fallback r c') same_s,
    )
total_work-set fallback (s₀ ∷ ss) (c₀ ∷ cs) (suc i) s c c' h k =
    omega (arith, total_work-set fallback ss cs i s c c' h k)

-- A step of a stage within its limit makes its work less.
pub StageStep-lt :
    (fallback : Option RetryPolicy) (s : StageSpec) (c c' : StageStatus) (ref : List ℕ)
    → pos_part (max_of fallback s) ≤ max_int32
    → Within (max_of fallback s) c
    → StageStep ref (max_of fallback s) c c'
    → stage_work fallback s c' < stage_work fallback s c
StageStep-lt fallback s c c' ref fits w (succeed p q r n k) = ground arith
StageStep-lt fallback s c c' ref fits w (fail p q n k) = ground arith
StageStep-lt fallback s c c' ref fits w (retry p more q n k) =
    let more' : ltb_ℤ (pos w.used) (max_of fallback s) ≡ true =
      ap (λ n. ltb_ℤ n (max_of fallback s)) (sym w.count) ∙ more in
    let count : c'.retry_count ≡ pos (w.used + 1) =
      k ∙ ap incr_int32 w.count ∙ incr_int32_exact w.used (max_of fallback s) fits more' in
    ground (arith, w.count)

-- The work of a pipeline by its phase.
module _ (env : Env) (p : AgentPipeline) where
  pub work_running :
      p.status.phase ≡ PipelinePhase.running
      → work env p ≡ suc (total_work p.spec.retry_policy p.spec.stages p.status.stages)
  unfolding work
  work_running h = ground arith

  pub work_terminal :
      (p.status.phase ≡ PipelinePhase.completed) ⊎ (p.status.phase ≡ PipelinePhase.failed)
      → work env p ≡ 0
  unfolding work
  work_terminal h = ground arith

  pub work_new :
      IsNew p.status.phase
      → work env p
        ≡ (if env.contains_finalizer p.meta finalizer_name then 2 else 3)
          + total_work p.spec.retry_policy p.spec.stages (init_stages p.spec.stages)
  unfolding work
  work_new h = ground arith

status_work-zero :
    (phase : PipelinePhase) (held : Bool) (p : AgentPipeline)
    → ((x : List ℕ) → phase ≢ PipelinePhase.other x)
    → status_work phase held p ≤ 0
    → (phase ≡ PipelinePhase.completed) ⊎ (phase ≡ PipelinePhase.failed)
status_work-zero PipelinePhase.unset held p known h = absurd (ground arith)
status_work-zero PipelinePhase.pending held p known h = absurd (ground arith)
status_work-zero PipelinePhase.running held p known h = absurd (omega arith)
status_work-zero PipelinePhase.completed held p known h = inl refl
status_work-zero PipelinePhase.failed held p known h = inr refl
status_work-zero (PipelinePhase.other x) held p known h = absurd (known x refl)

-- No work is left in Completed and Failed only.
pub work-zero :
    (env : Env) (p : AgentPipeline)
    → ((x : List ℕ) → p.status.phase ≢ PipelinePhase.other x)
    → work env p ≤ 0
    → (p.status.phase ≡ PipelinePhase.completed) ⊎ (p.status.phase ≡ PipelinePhase.failed)
unfolding work
work-zero env p = status_work-zero p.status.phase (env.contains_finalizer p.meta finalizer_name) p
