-- ===== src/Controller/Beginning.antt =====
-- The first two passes over a new pipeline: it gets the finalizer, and it begins.
use cluster.Prelude.{
  lit, decimal, false, not, none, List, [], ◌∷◌, ◌++◌, length, ◌≡◌, refl, sym, ap, subst, ◌∙◌, inl,
  inr, if◌then◌else◌, Option-cases,
}
use cluster.Api.{StageSpec, ObjectMeta, AgentPipeline}
use cluster.Controller.Env.{Env, ObjectKey, FinalizerLaws, normal, Trace, Call, fetch, write, clock}
use cluster.Controller.Outcome.{Outcome, again, finalizer_name}
use cluster.Controller.Stages.{init_stage_statuses}
use cluster.Controller.Updates.{begin_pipeline}
use cluster.Controller.Reconciler.{
  commit, amend, begin, handle_pending, handle_phase, handle_unless_deleted, handle_found,
  handle_fetched, reconcile,
}
use cluster.Controller.Server.{stored, requests, IsConsistent}
use cluster.Controller.Steps.{Fault, update_refused, IsNew}
use cluster.Controller.Writes.{MayWrite, commit-MayWrite}
use cluster.Controller.Requests.{commit-requests}
use cluster.Controller.Keeping.{KeepsConfigMaps, commit-get_config_map}
use cluster.Controller.Distinct.{AllUnread, AllUnread-later}
use cluster.Controller.Delivery.{Delivering}

-- The pipeline with the finalizer.
abbrev pub adorned : Env → AgentPipeline → AgentPipeline
adorned env p = record p { meta = env.add_finalizer p.meta finalizer_name }

module _ (env : Env) (key : ObjectKey) (p : AgentPipeline) (consistent : IsConsistent env key p)
    (laws : FinalizerLaws env) (faultless : ¬ Fault env) (alive : p.meta.deletion_timestamp ≡ none)
    (is_new : IsNew p.status.phase) where
  abbrev q : AgentPipeline
  q = adorned env p

  handle_phase-IsNew :
      (r : AgentPipeline) (t : Trace)
      → IsNew r.status.phase
      → handle_phase env r.status.phase r t ≡ handle_pending env r t
  unfolding handle_phase
  handle_phase-IsNew r t (inl h) = ap (λ x. handle_phase env x r t) h
  handle_phase-IsNew r t (inr h) = ap (λ x. handle_phase env x r t) h

  pub adorned-alive : q.meta.deletion_timestamp ≡ none
  adorned-alive =
      ap (λ (m : ObjectMeta). m.deletion_timestamp) (laws.add_keeps p.meta finalizer_name) ∙ alive

  abbrev looked : Trace
  looked = Call.get_pipeline key ∷ []

  abbrev adorned_at : Trace
  adorned_at = Call.update q none ∷ looked

  accepts_update : (t : Trace) (r : AgentPipeline) → env.update t r ≡ none
  accepts_update t r = elim (Option-cases (env.update t r)) [
    | inl h ↦ h
    | inr (e, h) ↦ absurd (faultless (update_refused t r e h))
  ]

  reconcile-adorned :
      env.contains_finalizer p.meta finalizer_name ≡ false
      → reconcile env key [] ≡ (again, adorned_at)
  unfolding reconcile fetch handle_fetched handle_found handle_unless_deleted handle_pending amend
      write stored
  reconcile-adorned absent =
      ap (λ x. handle_fetched env x looked) (consistent.reads [])
      ∙ ap (λ x. handle_unless_deleted env x p looked) alive
      ∙ handle_phase-IsNew p looked is_new
      ∙ ap
          (λ b.
            (if not b
                then amend env q (lit "adding finalizer: ") again
                else begin env p p.spec.stages)
              looked)
          absent
      ∙ rw (accepts_update looked q, amend) refl

  abbrev started_at : Trace
  started_at = Call.get_pipeline key ∷ adorned_at

  abbrev begins : StageSpec → Outcome × Trace
  begins first =
      commit env (begin_pipeline env (env.now started_at) first q)
        (lit "updating status to Running: ") normal (lit "PipelineStarted")
        (lit "Pipeline started with " ++ (decimal (length q.spec.stages) ++ lit " stages")) again
        started_at

  reconcile-begins :
      (first : StageSpec) (rest : List StageSpec)
      → p.spec.stages ≡ first ∷ rest
      → reconcile env key adorned_at ≡ begins first
  unfolding reconcile fetch handle_fetched handle_found handle_unless_deleted handle_pending begin
      clock stored
  reconcile-begins first rest stages =
      ap (λ x. handle_fetched env x started_at) (consistent.reads adorned_at)
      ∙ ap (λ x. handle_unless_deleted env x q started_at) adorned-alive
      ∙ handle_phase-IsNew q started_at is_new
      ∙ ap
          (λ b.
            (if not b
                then amend env (record q { meta = env.add_finalizer q.meta finalizer_name })
                    (lit "adding finalizer: ") again
                else begin env q q.spec.stages)
              started_at)
          (laws.added p.meta finalizer_name)
      ∙ ap (λ ss. begin env q ss started_at) stages

  -- Behind these passes no stage has begun and no agent has been asked.
  pub begins-Delivering :
      KeepsConfigMaps env
      → (first : StageSpec) (rest : List StageSpec) → p.spec.stages ≡ first ∷ rest
      → env.contains_finalizer p.meta finalizer_name ≡ false
      → AllUnread env q.meta [] p.spec.stages
      → let after = (reconcile env key (reconcile env key []).1).1 in
        Delivering env p q after [] p.spec.stages × (requests after ≡ [])
  unfolding stored requests begin_pipeline init_stage_statuses
  begins-Delivering keeps first rest stages absent unread =
      let b = begins first in
      let same : (reconcile env key (reconcile env key []).1).1 ≡ b.1 =
        ap (λ (x : Outcome × Trace). (reconcile env key x.1).1) (reconcile-adorned absent)
        ∙ ap (λ (x : Outcome × Trace). x.1) (reconcile-begins first rest stages) in
      let wrote : MayWrite env (stored p started_at) (stored p b.1)
          (begin_pipeline env (env.now started_at) first q).status =
        commit-MayWrite env p _ _ _ _ _ _ started_at in
      let written : stored p b.1
          ≡ record q { status = (begin_pipeline env (env.now started_at) first q).status } =
        elim wrote [ inl (fault, _) ↦ absurd (faultless fault) | inr e ↦ e ] in
      subst (λ after. Delivering env p q after [] p.spec.stages × (requests after ≡ [])) (sym same)
        (
          record {
            same_meta = ap (λ (r : AgentPipeline). r.meta) written;
            same_spec = ap (λ (r : AgentPipeline). r.spec) written;
            running = ap (λ (r : AgentPipeline). r.status.phase) written;
            split = refl;
            statuses = ap (λ (r : AgentPipeline). r.status.stages) written;
            delivered = tt;
            unread =
                AllUnread-later env q.meta [] b.1 p.spec.stages
                  (λ k.
                    commit-get_config_map env keeps k _ _ _ _ _ _ started_at
                    ∙ keeps.untouched _ _ k refl
                    ∙ keeps.untouched _ _ k refl
                    ∙ keeps.untouched _ _ k refl)
                  unread;
          },
          commit-requests env _ _ _ _ _ _ started_at,
        )
