-- ===== src/Controller/Refinement.antt =====
-- The passes of the reconciler against the state machine of Steps.
use cluster.Prelude.{
  Str, ltb_ℤ, ℕ, true, Option, none, some, List, [], ◌∷◌, ◌≡◌, refl, ap, ◌∙◌, ◌⊎◌, inl, inr,
  Bool-cases, Option-cases,
}
use cluster.Api.{
  PipelinePhase, StagePhase, Time, StageSpec, StageStatus, ObjectMeta, AgentPipelineStatus,
  AgentPipeline,
}
use cluster.Controller.Env.{Env, ObjectKey, Trace, Call, pure, fetch, write, clock}
use cluster.Controller.Stages.{
  FoundStage, no_stage, stage, out_of_range, find_current_stage, are_dependencies_met,
  init_stage_statuses, output_config_map_name, get_effective_retry_policy,
}
use cluster.Controller.Outcome.{Outcome, finalizer_name, unless_error}
use cluster.Controller.Updates.{begin_pipeline, end_pipeline, abort_pipeline, reset_stage}
use cluster.Controller.Reconciler.{
  amend, complete_pipeline, fail_or_retry, handle_stage, handle_current, handle_running, begin,
  handle_pending, handle_deletion, handle_phase, handle_unless_deleted, handle_found,
  handle_fetched, reconcile,
}
use cluster.Controller.Server.{stored, IsConsistent}
use cluster.Controller.Steps.{
  StageStep, succeed, fail, retry, IsNew, Fault, update_refused, is_runnable, StatusStep, start,
  reject, move, finish, give_up, Idle, faulty, released, already_completed, already_failed, unknown,
  out_of_stages, waiting, unexpected, Step, idle, adorn, release, advance,
}
use cluster.Controller.Writes.{
  MayWrite, commit-MayWrite, complete_pipeline-MayWrite, fail_pipeline-MayWrite,
  retry_stage-MayWrite,
}
use cluster.Controller.Endings.{Ended, StageEnd}
use cluster.Controller.Ends.{start_stage-StageEnd}

Ended-StageStep :
    {ref : Str} {max : _} {c c' : StageStatus}
    → c.phase ≡ StagePhase.pending
    → Ended ref c c'
    → StageStep ref max c c'
Ended-StageStep h e = elim e.phase [
  | inl broken ↦ fail h broken e.name e.retries
  | inr finished ↦ succeed h finished.0 finished.1 e.name e.retries
]

unless_error_trace :
    (e : Option Str) (prefix : Str) (o : Outcome) (t : Trace)
    → (unless_error e prefix (pure o) t).1 ≡ t
unless_error_trace none prefix o t = refl
unless_error_trace (some _) prefix o t = refl

-- At the trace `t`, `p` is stored.
module _ (env : Env) (p0 : AgentPipeline) (t : Trace) (p : AgentPipeline)
    (now : stored p0 t ≡ p) where
  stays : Idle env p → Step env p (stored p0 t)
  stays why = idle why now

  -- A metadata update, accepted or refused.
  amend_lem :
      (m : ObjectMeta) (prefix : Str) (o : Outcome)
      → (stored p0 (amend env (record p { meta = m }) prefix o t).1 ≡ record p { meta = m })
        ⊎ (Fault env × (stored p0 (amend env (record p { meta = m }) prefix o t).1 ≡ p))
  unfolding amend write stored
  amend_lem m prefix o = elim (Option-cases (env.update t (record p { meta = m }))) [
    | inl accepted ↦ inl (
        rw (accepted, amend, stored)
          (ap (λ (q : AgentPipeline). record p { meta = m; status = q.status }) now))
    | inr (e, refused) ↦
        inr (update_refused t (record p { meta = m }) e refused, rw (refused, amend, stored) now)
  ]

  handle_deletion-Step :
      {at : Time}
      → p.meta.deletion_timestamp ≡ some at
      → Step env p (stored p0 (handle_deletion env p t).1)
  unfolding handle_deletion
  handle_deletion-Step deleted = elim (Bool-cases (env.contains_finalizer p.meta finalizer_name)) [
    | inl held ↦
        rw (held, handle_deletion)
          (elim (amend_lem _ _ _) [
            | inl done ↦ release deleted held done
            | inr (fault, same) ↦ idle (faulty fault) same
          ])
    | inr free ↦ rw (free, handle_deletion) (stays (released deleted free))
  ]

  module _ (alive : p.meta.deletion_timestamp ≡ none) where
    -- A write of the status alone.
    written-Step :
        {new : AgentPipeline} {st : AgentPipelineStatus}
        → (IsNew p.status.phase → env.contains_finalizer p.meta finalizer_name ≡ true)
        → MayWrite env (stored p0 t) new st
        → StatusStep p st
        → Step env p new
    written-Step held (inl (fault, same)) s = idle (faulty fault) (same ∙ now)
    written-Step {new} {st} held (inr h) s =
        advance st alive held s (h ∙ ap (λ (q : AgentPipeline). record q { status = st }) now)

    begin-Step :
        env.contains_finalizer p.meta finalizer_name ≡ true
        → IsNew p.status.phase
        → (stages : List StageSpec) → p.spec.stages ≡ stages
        → Step env p (stored p0 (begin env p stages t).1)
    unfolding begin abort_pipeline begin_pipeline init_stage_statuses clock
    begin-Step held new [] empty =
        written-Step (λ _. held) (fail_pipeline-MayWrite env p0 p _ t) (reject new empty refl refl)
    begin-Step held new (first ∷ rest) listed =
        written-Step (λ _. held) (commit-MayWrite env p0 _ _ _ _ _ _ t)
          (start first rest new listed refl refl refl)

    handle_pending-Step : IsNew p.status.phase → Step env p (stored p0 (handle_pending env p t).1)
    unfolding handle_pending
    handle_pending-Step new = elim (Bool-cases (env.contains_finalizer p.meta finalizer_name)) [
      | inl held ↦ rw (held, handle_pending) (begin-Step held new p.spec.stages refl)
      | inr free ↦
          rw (free, handle_pending)
            (elim (amend_lem _ _ _) [
              | inl done ↦ adorn new alive free done
              | inr (fault, same) ↦ idle (faulty fault) same
            ])
    ]

    module _ (running : p.status.phase ≡ PipelinePhase.running) where
      not-IsNew : IsNew p.status.phase → env.contains_finalizer p.meta finalizer_name ≡ true
      not-IsNew new = elim new [ inl e ↦ cc | inr e ↦ cc ]

      complete_pipeline-Step :
          find_current_stage p ≡ no_stage → Step env p (stored p0 (complete_pipeline env p t).1)
      unfolding end_pipeline
      complete_pipeline-Step none_left =
          written-Step not-IsNew (complete_pipeline-MayWrite env p0 p t)
            (finish running none_left refl refl)

      module _ (i : ℕ) (s : StageSpec) (c : StageStatus)
          (current : find_current_stage p ≡ stage i s c)
          (met : are_dependencies_met p s ≡ true) where
        StageEnd-Step :
            {q : AgentPipeline}
            → c.phase ≡ StagePhase.pending
            → StageEnd env (output_config_map_name p.meta.name s.name) p i c (stored p0 t) q
            → Step env p q
        StageEnd-Step h (StageEnd.idle fault same) = idle (faulty fault) (same ∙ now)
        StageEnd-Step h (StageEnd.done c' e st written same stages) =
            written-Step not-IsNew (inr written)
              (move i s c c' running current met (Ended-StageStep h e) (same ∙ running) stages)

        fail_or_retry-Step :
            c.phase ≡ StagePhase.failed → Step env p (stored p0 (fail_or_retry env p i s c t).1)
        unfolding fail_or_retry reset_stage abort_pipeline
        fail_or_retry-Step h =
            elim (Bool-cases (ltb_ℤ c.retry_count (get_effective_retry_policy p s).max_retries)) [
              | inl more ↦
                  rw (more, fail_or_retry)
                    (written-Step not-IsNew (retry_stage-MayWrite env p0 p i s c _ t) (
                      move i s c (reset_stage c) running current met (retry h more refl refl refl)
                        running refl))
              | inr over ↦
                  rw (over, fail_or_retry)
                    (written-Step not-IsNew (fail_pipeline-MayWrite env p0 p _ t)
                      (give_up i s c running current met h over refl refl))
            ]

        handle_stage-Step :
            (phase : StagePhase)
            → c.phase ≡ phase
            → Step env p (stored p0 (handle_stage env phase p i s c t).1)
        unfolding handle_stage
        handle_stage-Step StagePhase.pending h =
            StageEnd-Step h (start_stage-StageEnd env p0 p i s c t)
        handle_stage-Step StagePhase.failed h = fail_or_retry-Step h
        handle_stage-Step _ h = stays (unexpected i s c running current (ap is_runnable h))

      handle_current-Step :
          (current : FoundStage)
          → find_current_stage p ≡ current
          → Step env p (stored p0 (handle_current env current p t).1)
      unfolding handle_current
      handle_current-Step no_stage h = complete_pipeline-Step h
      handle_current-Step out_of_range h = stays (out_of_stages running h)
      handle_current-Step (stage i s c) h = elim (Bool-cases (are_dependencies_met p s)) [
        | inl met ↦ rw (met, handle_current) (handle_stage-Step i s c h met c.phase refl)
        | inr unmet ↦ rw (unmet, handle_current) (stays (waiting i s c running h unmet))
      ]

    handle_phase-Step :
        (phase : PipelinePhase)
        → p.status.phase ≡ phase
        → Step env p (stored p0 (handle_phase env phase p t).1)
    unfolding handle_phase handle_running
    handle_phase-Step PipelinePhase.unset h = handle_pending-Step (inl h)
    handle_phase-Step PipelinePhase.pending h = handle_pending-Step (inr h)
    handle_phase-Step PipelinePhase.running h = handle_current-Step h (find_current_stage p) refl
    handle_phase-Step PipelinePhase.completed h = stays (already_completed h)
    handle_phase-Step PipelinePhase.failed h = stays (already_failed h)
    handle_phase-Step (PipelinePhase.other x) h = stays (unknown x h)

  handle_unless_deleted-Step :
      (at : Option Time)
      → p.meta.deletion_timestamp ≡ at
      → Step env p (stored p0 (handle_unless_deleted env at p t).1)
  unfolding handle_unless_deleted
  handle_unless_deleted-Step none h = handle_phase-Step h p.status.phase refl
  handle_unless_deleted-Step (some at) h = handle_deletion-Step h

-- Whatever the API, the agent, the templates and the clock answer, a pass of the reconciler over a
-- pipeline that is read as it is stored is a step of the state machine `Step`: the pipeline stays as
-- it is, for one of the reasons of `Idle`; or it gets or loses the finalizer and nothing else
-- changes; or its status moves by `StatusStep` and nothing else changes.
pub reconcile-Step :
    (env : Env) (key : ObjectKey) (p0 : AgentPipeline) (t : Trace)
    → IsConsistent env key p0
    → Step env (stored p0 t) (stored p0 (reconcile env key t).1)
unfolding reconcile handle_found fetch stored
reconcile-Step env key p0 t reads =
    rw (reads.reads t, reconcile, handle_fetched)
      (handle_unless_deleted-Step env p0 (Call.get_pipeline key ∷ t) (stored p0 t) refl
        (stored p0 t).meta.deletion_timestamp refl)
