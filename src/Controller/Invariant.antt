-- ===== src/Controller/Invariant.antt =====
-- What holds of a stored pipeline between two passes of the reconciler.
use cluster.Prelude.{
  Str, pos_part, ltb_ℤ, max_int32, ℕ, zero, suc, ◌≤◌, false, Option, some, List, [], ◌∷◌, set,
  get_elem?, ◌≡◌, sym, ap, subst, ◌⊎◌, inl, inr,
}
use cluster.Api.{
  PipelinePhase, StagePhase, StageSpec, StageStatus, RetryPolicy, AgentPipelineSpec, ObjectMeta,
  AgentPipelineStatus, AgentPipeline,
}
use cluster.Controller.Env.{Env, ObjectKey, FinalizerLaws, Trace}
use cluster.Controller.Stages.{no_stage, stage, find_current_stage, output_config_map_name}
use cluster.Controller.Outcome.{finalizer_name}
use cluster.Controller.Reconciler.{reconcile}
use cluster.Controller.Server.{stored, IsConsistent, passes}
use cluster.Controller.Steps.{
  Step, idle, adorn, release, advance, StageStep, StatusStep, start, reject, move, finish, give_up,
}
use cluster.Controller.Progress.{
  Statuses, max_of, Exhausted, AllDone, StoppedAt, Progress, init_stages-Progress,
}
use cluster.Controller.Current.{
  StoppedAt-Current, StoppedAt-open, AllDone-find_loop, StageStep-Active,
}
use cluster.Controller.Refinement.{reconcile-Step}

-- The retry limits of the stages are values of `int32`.
abbrev pub Fits : Option RetryPolicy → List StageSpec → Type 0
Fits fallback [] = Unit
Fits fallback (s ∷ ss) = (pos_part (max_of fallback s) ≤ max_int32) × Fits fallback ss

-- What the stage statuses are in each phase of the pipeline.
abbrev pub ValidAt : PipelinePhase → Str → AgentPipelineSpec → Statuses → Type 0
ValidAt PipelinePhase.unset name spec cs = Unit
ValidAt PipelinePhase.pending name spec cs = Unit
ValidAt PipelinePhase.running name spec cs = Progress name spec.retry_policy spec.stages cs
ValidAt PipelinePhase.completed name spec cs = AllDone name spec.retry_policy spec.stages cs
ValidAt PipelinePhase.failed name spec cs =
    (spec.stages ≡ [])
    ⊎ StoppedAt name spec.retry_policy (Exhausted name spec.retry_policy) spec.stages cs
ValidAt (PipelinePhase.other _) name spec cs = Unit

pub record IsValid (p : AgentPipeline) : Type 0 where
  pub fits : Fits p.spec.retry_policy p.spec.stages
  pub stages : ValidAt p.status.phase p.meta.name p.spec p.status.stages

pub get_elem?-Fits :
    (fallback : Option RetryPolicy) (ss : List StageSpec) (j : ℕ) {s : StageSpec}
    → Fits fallback ss
    → get_elem? ss j ≡ some s
    → pos_part (max_of fallback s) ≤ max_int32
get_elem?-Fits fallback [] j f h = cc
get_elem?-Fits fallback (s ∷ ss) zero f h =
    subst (λ r. pos_part (max_of fallback r) ≤ max_int32) (cc) f.0
get_elem?-Fits fallback (s ∷ ss) (suc j) f h = get_elem?-Fits fallback ss j f.1 h

module _ (p : AgentPipeline) (v : IsValid p) where
  open p use {meta, spec, status}

  at :
      {phase phase' : PipelinePhase} {cs cs' : Statuses}
      → phase ≡ phase'
      → cs ≡ cs'
      → ValidAt phase' meta.name spec cs'
      → ValidAt phase meta.name spec cs
  at {phase} {phase'} {cs} {cs'} e f h =
      subst (λ x. ValidAt x meta.name spec cs) (sym e)
        (subst (λ x. ValidAt phase' meta.name spec x) (sym f) h)

  pub in_phase :
      {phase : PipelinePhase} → status.phase ≡ phase → ValidAt phase meta.name spec status.stages
  in_phase e = subst (λ x. ValidAt x meta.name spec status.stages) e v.stages

  moved :
      (i : ℕ) (s : StageSpec) (c c' : StageStatus)
      → find_current_stage p ≡ stage i s c
      → StageStep (output_config_map_name meta.name s.name) (max_of spec.retry_policy s) c c'
      → Progress meta.name spec.retry_policy spec.stages status.stages
      → Progress meta.name spec.retry_policy spec.stages (set status.stages i c')
  unfolding find_current_stage
  moved i s c c' h m (inl all) =
      cc (AllDone-find_loop meta.name spec.retry_policy spec.stages status.stages all)
  moved i s c c' h m (inr at) =
      let k = StoppedAt-Current meta.name spec.retry_policy spec.stages status.stages i s c at h in
      elim (StageStep-Active meta.name spec.retry_policy s c c'
        (get_elem?-Fits spec.retry_policy spec.stages i v.fits k.in_spec) k.active m) [
          | inl a ↦ inr (k.still c' a)
          | inr d ↦ k.over c' d
        ]

  pub finished :
      find_current_stage p ≡ no_stage
      → Progress meta.name spec.retry_policy spec.stages status.stages
      → AllDone meta.name spec.retry_policy spec.stages status.stages
  unfolding find_current_stage
  finished h (inl all) = all
  finished h (inr at) =
      absurd (StoppedAt-open meta.name spec.retry_policy spec.stages status.stages at h)

  gave_up :
      (i : ℕ) (s : StageSpec) (c : StageStatus)
      → find_current_stage p ≡ stage i s c
      → c.phase ≡ StagePhase.failed
      → ltb_ℤ c.retry_count (max_of spec.retry_policy s) ≡ false
      → Progress meta.name spec.retry_policy spec.stages status.stages
      → StoppedAt meta.name spec.retry_policy
          (Exhausted meta.name spec.retry_policy)
          spec.stages
          status.stages
  unfolding find_current_stage
  gave_up i s c h failed over (inl all) =
      cc (AllDone-find_loop meta.name spec.retry_policy spec.stages status.stages all)
  gave_up i s c h failed over (inr at) =
      let k = StoppedAt-Current meta.name spec.retry_policy spec.stages status.stages i s c at h in
      k.stuck
        (record { name = k.active.name; phase = failed; within = k.active.within; over = over })

  renamed : (m : ObjectMeta) → m.name ≡ meta.name → IsValid (record p { meta = m })
  renamed m e = record {
    fits = v.fits;
    stages = subst (λ x. ValidAt status.phase x spec status.stages) (sym e) v.stages;
  }

  pub StatusStep-ValidAt :
      {st : AgentPipelineStatus} → StatusStep p st → ValidAt st.phase meta.name spec st.stages
  unfolding find_current_stage
  StatusStep-ValidAt (start first rest new listed phase current stages) =
      at phase stages (init_stages-Progress meta.name spec.retry_policy spec.stages)
  StatusStep-ValidAt (reject new empty phase stages) = at phase stages (inl empty)
  StatusStep-ValidAt (move i s c c' running current met m phase stages) =
      at phase stages (moved i s c c' current m (in_phase running))
  StatusStep-ValidAt (finish running done phase stages) =
      at phase stages (finished done (in_phase running))
  StatusStep-ValidAt (give_up i s c running current met failed over phase stages) =
      at phase stages (inr (gave_up i s c current failed over (in_phase running)))

-- A step of the state machine keeps the invariant.
pub Step-IsValid :
    {env : Env} {p q : AgentPipeline} → FinalizerLaws env → Step env p q → IsValid p → IsValid q
Step-IsValid laws (idle why e) v = subst IsValid (sym e) v
Step-IsValid {env} {p} laws (adorn new alive free e) v =
    subst IsValid (sym e)
      (renamed p v _ (ap (λ (m : ObjectMeta). m.name) (laws.add_keeps p.meta finalizer_name)))
Step-IsValid {env} {p} laws (release deleted held e) v =
    subst IsValid (sym e)
      (renamed p v _ (ap (λ (m : ObjectMeta). m.name) (laws.remove_keeps p.meta finalizer_name)))
Step-IsValid {env} {p} laws (advance st alive held m e) v =
    subst IsValid (sym e) (record { fits = v.fits; stages = StatusStep-ValidAt p v m })

-- Any number of passes of the reconciler over a pipeline that is read as it is stored keep the
-- invariant `IsValid`, whatever else the world answers:
-- in the phase Running the stages are a run of completed ones, then at most one that is pending or
-- failed, then ones that have not begun; in Completed all stages are completed; in Failed the spec
-- has no stages, or the run of completed ones ends at a failed stage with no retry left. A
-- completed stage has the name of its spec and the name of its output, and the retry count of a
-- stage is at least 0 and at most its limit.
pub passes-IsValid :
    (env : Env) (key : ObjectKey) (p0 : AgentPipeline) (n : ℕ) (t : Trace)
    → FinalizerLaws env
    → IsConsistent env key p0
    → IsValid (stored p0 t)
    → IsValid (stored p0 (passes env key n t))
unfolding passes
passes-IsValid env key p0 zero t laws reads v = v
passes-IsValid env key p0 (suc n) t laws reads v =
    passes-IsValid env key p0 n (reconcile env key t).1 laws reads
      (Step-IsValid laws (reconcile-Step env key p0 t reads) v)
