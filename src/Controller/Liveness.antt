-- ===== src/Controller/Liveness.antt =====
-- The steps of a live pipeline, and its end.
use cluster.Prelude.{
  ℕ, zero, suc, ◌≤◌, ◌<◌, true, none, List, [], set, ◌≡◌, ◌≢◌, refl, sym, ap, subst, ◌∙◌, ◌⊎◌, inl,
  inr, arith,
}
use cluster.Api.{
  PipelinePhase, StageSpec, StageStatus, ObjectMeta, AgentPipelineStatus, AgentPipeline,
}
use cluster.Controller.Env.{Env, ObjectKey, FinalizerLaws, Trace}
use cluster.Controller.Stages.{stage, find_current_stage, output_config_map_name}
use cluster.Controller.Outcome.{finalizer_name}
use cluster.Controller.Reconciler.{reconcile}
use cluster.Controller.Server.{stored, IsConsistent, passes}
use cluster.Controller.Steps.{
  StageStep, IsNew, Fault, is_runnable, StatusStep, start, reject, move, finish, give_up, Idle,
  faulty, released, already_completed, already_failed, unknown, out_of_stages, waiting, unexpected,
  Step, idle, adorn, release, advance,
}
use cluster.Controller.Progress.{max_of, Progress}
use cluster.Controller.Current.{Current, StoppedAt-Current, StoppedAt-in_range, AllDone-find_loop}
use cluster.Controller.Invariant.{IsValid, get_elem?-Fits, in_phase, Step-IsValid}
use cluster.Controller.Refinement.{reconcile-Step}
use cluster.Controller.Work.{
  work_running, work_terminal, work_new, work-zero, work, total_work, total_work-set, StageStep-lt,
}
use cluster.Controller.Dependencies.{Ordered, Ordered-are_dependencies_met}

abbrev pub IsTerminal : PipelinePhase → Type 0
IsTerminal phase = (phase ≡ PipelinePhase.completed) ⊎ (phase ≡ PipelinePhase.failed)

-- A pipeline that nobody deletes, in a phase that the controller knows, whose stages depend on
-- earlier ones only, and which is valid (`IsValid`): the retry limits of its stages are values of
-- `int32` and, once it has begun, each stage of the spec has a status, of the kinds that the
-- controller itself writes in that phase, so that none of them is Skipped.
pub record IsLive (p : AgentPipeline) : Type 0 where
  pub valid : IsValid p
  pub alive : p.meta.deletion_timestamp ≡ none
  pub known : (phase : List ℕ) → p.status.phase ≢ PipelinePhase.other phase
  pub ordered : Ordered [] p.spec.stages

module _ (env : Env) (p : AgentPipeline) (live : IsLive p) where
  open p use {meta, spec, status}

  module _ (running : status.phase ≡ PipelinePhase.running) where
    progress : Progress meta.name spec.retry_policy spec.stages status.stages
    progress = in_phase p live.valid running

    current :
        (i : ℕ) (s : StageSpec) (c : StageStatus)
        → find_current_stage p ≡ stage i s c
        → Current meta.name spec.retry_policy spec.stages status.stages i s c
    unfolding find_current_stage
    current i s c h = elim progress [
      | inl all ↦ cc (AllDone-find_loop meta.name spec.retry_policy spec.stages status.stages all)
      | inr at ↦ StoppedAt-Current meta.name spec.retry_policy spec.stages status.stages i s c at h
    ]

    -- The current stage takes one step of its work.
    move-lt :
        (i : ℕ) (s : StageSpec) (c c' : StageStatus)
        → find_current_stage p ≡ stage i s c
        → StageStep (output_config_map_name meta.name s.name) (max_of spec.retry_policy s) c c'
        → total_work spec.retry_policy spec.stages (set status.stages i c')
          < total_work spec.retry_policy spec.stages status.stages
    move-lt i s c c' h m =
        let k = current i s c h in
        omega (
          arith,
          total_work-set spec.retry_policy spec.stages status.stages i s c c' k.in_spec k.in_status,
          StageStep-lt spec.retry_policy s c c' _
              (get_elem?-Fits spec.retry_policy spec.stages i live.valid.fits k.in_spec)
              k.active.within m,
        )

  -- The only reasons to be idle that are left are the phases Completed and Failed.
  Idle-IsTerminal : ¬ Fault env → Idle env p → IsTerminal status.phase
  unfolding find_current_stage
  Idle-IsTerminal faultless (faulty f) = absurd (faultless f)
  Idle-IsTerminal faultless (released deleted free) = cc (live.alive)
  Idle-IsTerminal faultless (already_completed h) = inl h
  Idle-IsTerminal faultless (already_failed h) = inr h
  Idle-IsTerminal faultless (unknown x h) = absurd (live.known x h)
  Idle-IsTerminal faultless (out_of_stages running h) = elim (progress running) [
    | inl all ↦ cc (AllDone-find_loop meta.name spec.retry_policy spec.stages status.stages all)
    | inr at ↦
        absurd (StoppedAt-in_range meta.name spec.retry_policy spec.stages status.stages at h)
  ]
  Idle-IsTerminal faultless (waiting i s c running h unmet) = cc (
      Ordered-are_dependencies_met meta.name spec.retry_policy p i s c live.ordered
        (progress running) h)
  Idle-IsTerminal faultless (unexpected i s c running h odd) =
      elim (current running i s c h).active.phase [
        | inl e ↦ cc (ap is_runnable e)
        | inr e ↦ cc (ap is_runnable e)
      ]

  known_of :
      {phase phase' : PipelinePhase}
      → phase ≡ phase'
      → ((x : List ℕ) → phase' ≢ PipelinePhase.other x)
      → (x : List ℕ) → phase ≢ PipelinePhase.other x
  known_of e h x h' = h x (sym e ∙ h')

  StatusStep-known :
      {st : AgentPipelineStatus} → StatusStep p st → (x : List ℕ) → st.phase ≢ PipelinePhase.other x
  StatusStep-known (start first rest new listed phase named stages) x h = cc
  StatusStep-known (reject new empty phase stages) x h = cc
  StatusStep-known (move i s c c' running h met m phase stages) x h' = cc
  StatusStep-known (finish running h phase stages) x h' = cc
  StatusStep-known (give_up i s c running h met failed over phase stages) x h' = cc

  StatusStep-lt :
      (st : AgentPipelineStatus)
      → (IsNew status.phase → env.contains_finalizer meta finalizer_name ≡ true)
      → StatusStep p st
      → work env (record p { status = st }) < work env p
  StatusStep-lt st held (start first rest new listed phase named stages) =
      let q : AgentPipeline = record p { status = st } in
      rw (work_new env p new, held new, work_running env q phase, stages) (omega arith)
  StatusStep-lt st held (reject new empty phase stages) =
      let q : AgentPipeline = record p { status = st } in
      rw (work_new env p new, held new, work_terminal env q (inr phase)) (omega arith)
  StatusStep-lt st held (move i s c c' running h met m phase stages) =
      let q : AgentPipeline = record p { status = st } in
      rw (work_running env p running, work_running env q phase, stages)
        (omega (arith, move-lt running i s c c' h m))
  StatusStep-lt st held (finish running h phase stages) =
      let q : AgentPipeline = record p { status = st } in
      rw (work_running env p running, work_terminal env q (inl phase)) (omega arith)
  StatusStep-lt st held (give_up i s c running h met failed over phase stages) =
      let q : AgentPipeline = record p { status = st } in
      rw (work_running env p running, work_terminal env q (inr phase)) (omega arith)

  -- One step: the end, or a live pipeline with less to do.
  pub Step-IsLive :
      (q : AgentPipeline)
      → FinalizerLaws env
      → ¬ Fault env
      → Step env p q
      → (IsTerminal p.status.phase × (q ≡ p)) ⊎ (IsLive q × (work env q < work env p))
  Step-IsLive q laws faultless (idle why e) = inl (Idle-IsTerminal faultless why, e)
  Step-IsLive q laws faultless (adorn new alive free e) =
      let r : AgentPipeline = record p { meta = env.add_finalizer meta finalizer_name } in
      inr (
        subst (λ x. IsLive x × (work env x < work env p)) (sym e)
          (
            record {
              valid = Step-IsValid laws (adorn new alive free refl) live.valid;
              alive =
                  ap (λ (m : ObjectMeta). m.deletion_timestamp) (laws.add_keeps meta finalizer_name)
                  ∙ alive;
              known = live.known;
              ordered = live.ordered;
            },
            rw (work_new env p new, free, work_new env r new, laws.added meta finalizer_name)
                (omega arith),
          ))
  Step-IsLive q laws faultless (release deleted held e) = cc (live.alive)
  Step-IsLive q laws faultless (advance st alive held m e) = inr (
      subst (λ x. IsLive x × (work env x < work env p)) (sym e)
        (
          record {
            valid = Step-IsValid laws (advance st alive held m refl) live.valid;
            alive = alive;
            known = StatusStep-known m;
            ordered = live.ordered;
          },
          StatusStep-lt st held m,
        ))

-- A live pipeline is Completed or Failed after as many passes of the reconciler as `work` says,
-- whatever the agents answer and whatever the reads of outputs and the templates do, if it is read as
-- it is stored and none of its writes is refused. That it is live asks that nobody deletes it, that
-- its phase is known, that its stages depend on earlier stages only, that its retry limits are values
-- of `int32`, and that it is valid: if it is Running, each stage of the spec has a status, which are
-- completed ones, then at most one that is pending or failed within its retry limit, then ones that
-- have not begun. Where a status is Skipped, or the spec has fewer stages than the status, nothing is
-- said.
pub passes-IsTerminal :
    (env : Env) (key : ObjectKey) (p0 : AgentPipeline) (n : ℕ) (t : Trace)
    → FinalizerLaws env
    → IsConsistent env key p0
    → ¬ Fault env
    → IsLive (stored p0 t)
    → work env (stored p0 t) ≤ n
    → IsTerminal (stored p0 (passes env key n t)).status.phase
unfolding passes
passes-IsTerminal env key p0 zero t laws reads faultless live h =
    work-zero env (stored p0 t) live.known h
passes-IsTerminal env key p0 (suc n) t laws reads faultless live h =
    let t' = (reconcile env key t).1 in
    elim (Step-IsLive env (stored p0 t) live (stored p0 t') laws faultless
      (reconcile-Step env key p0 t reads)) [
        | inl (over, same) ↦
            passes-IsTerminal env key p0 n t' laws reads faultless (subst IsLive (sym same) live) (
              subst (λ x. work env x ≤ n) (sym same)
                (rw (work_terminal env (stored p0 t) over) (omega arith)))
        | inr (live', less) ↦
            passes-IsTerminal env key p0 n t' laws reads faultless live' (omega arith)
      ]
