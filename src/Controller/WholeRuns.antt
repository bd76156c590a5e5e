-- ===== src/Controller/WholeRuns.antt =====
-- From the start of the first stage to the end of the pipeline, where all agents answer.
use cluster.Prelude.{
  Str, ℕ, zero, suc, none, List, [], ◌∷◌, ◌++◌, length, ◌≡◌, refl, sym, ap, subst, ◌∙◌, inl, inr,
}
use cluster.Api.{StrMap, PipelinePhase, StageSpec, ObjectMeta, AgentPipeline}
use cluster.Runner.Types.{ok, RunStatus, RunRequest, RunResult}
use cluster.Controller.Env.{Env, ObjectKey, Trace, Call}
use cluster.Controller.Stages.{find_current_stage, find_loop}
use cluster.Controller.Handler.{PipelineContext, replace_output, render_prompt}
use cluster.Controller.Reconciler.{reconcile}
use cluster.Controller.Server.{stored, requests, passes, IsConsistent}
use cluster.Controller.Steps.{Fault}
use cluster.Controller.Outcome.{Outcome}
use cluster.Controller.Dependencies.{Ordered}
use cluster.Controller.Keeping.{KeepsConfigMaps, AcceptsConfigMaps}
use cluster.Controller.Deliveries.{Delivery, specs_of}
use cluster.Controller.Handover.{outputs_of, output_key, AllDelivered, AllDelivered-later}
use cluster.Controller.Distinct.{Distinct}
use cluster.Controller.Delivery.{
  with_output, outputs_of-append, outputs_for, requests_for, Delivering, AllDelivered-Named,
}
use cluster.Controller.Recovery.{Holds}
use cluster.Controller.Rounds.{delivery, reconcile-Delivering}
use cluster.Controller.Reconciler.{
  complete_pipeline, handle_current, handle_running, handle_phase, handle_unless_deleted,
  handle_found, handle_fetched,
}
use cluster.Controller.Updates.{end_pipeline}
use cluster.Controller.Env.{fetch}
use cluster.Controller.Deliveries.{find_loop-all_Named}
use cluster.Controller.Writes.{complete_pipeline-MayWrite}
use cluster.Controller.Requests.{complete_pipeline-requests}
use cluster.Controller.Keeping.{complete_pipeline-get_config_map}

passes-suc :
    (env : Env) (key : ObjectKey) (n : ℕ) (t : Trace)
    → passes env key (suc n) t ≡ (reconcile env key (passes env key n t)).1
unfolding passes
passes-suc env key zero t = refl
passes-suc env key (suc n) t = passes-suc env key n (reconcile env key t).1

-- At `t` the ConfigMap of each stage named holds its output, and nothing else.
abbrev pub AllKept : Env → ObjectMeta → Trace → StrMap → Type 0
AllKept env m t [] = Unit
AllKept env m t ((name, output) ∷ outs) =
    Holds (env.get_config_map t (output_key m name)) output × AllKept env m t outs

AllDelivered-AllKept :
    (env : Env) (m : ObjectMeta) (t : Trace) (ds : List Delivery)
    → AllDelivered env m t ds
    → AllKept env m t (outputs_of ds)
unfolding replace_output
AllDelivered-AllKept env m t [] all = tt
AllDelivered-AllKept env m t (d ∷ ds) (at, all) =
    ((replace_output d.output at.base, at.kept, refl), AllDelivered-AllKept env m t ds all)

module _ (env : Env) (key : ObjectKey) (p0 p : AgentPipeline) (answers : RunRequest → RunResult)
    (prompt : StageSpec → PipelineContext → Str) (consistent : IsConsistent env key p0)
    (accepts : AcceptsConfigMaps env) (keeps : KeepsConfigMaps env) (faultless : ¬ Fault env)
    (alive : p.meta.deletion_timestamp ≡ none) (ordered : Ordered [] p.spec.stages)
    (distinct : Distinct p.spec.stages)
    (answered : (t : Trace) (req : RunRequest) → env.run_agent t req ≡ ok (answers req))
    (succeeds : (req : RunRequest) → (answers req).status ≡ RunStatus.completed)
    (rendered : (s : StageSpec) (pc : PipelineContext)
      → render_prompt env s pc ≡ ok (prompt s pc)) where
  -- As many passes as there are stages deliver all of them.
  passes-Delivering :
      (t : Trace) (ds : List Delivery) (rest : List StageSpec)
      → Delivering env p0 p t ds rest
      → let after = passes env key (length rest) t in
        (all : List Delivery) × Delivering env p0 p after all []
        × (outputs_of all ≡ outputs_for answers prompt p (outputs_of ds) rest)
        × (requests after ≡ requests_for answers prompt p (outputs_of ds) rest (requests t))
  unfolding passes
  passes-Delivering t ds [] at = (ds, at, refl, refl)
  passes-Delivering t ds (s ∷ rest) at =
      let (end, step, asks) =
        reconcile-Delivering env key p0 p answers prompt consistent accepts keeps faultless alive
          ordered distinct answered succeeds rendered t ds s rest at in
      let d =
        delivery env key p0 p answers prompt consistent accepts keeps faultless alive ordered
          distinct answered succeeds rendered t ds s rest at end in
      let outs = outputs_of-append ds d in
      let (all, last, outputs, requested) =
        passes-Delivering (reconcile env key t).1 (ds ++ (d ∷ [])) rest step in
      (
        all,
        last,
        outputs ∙ ap (λ o. outputs_for answers prompt p o rest) outs,
        requested
            ∙ ap (λ o. requests_for answers prompt p o rest (requests (reconcile env key t).1)) outs
            ∙ ap
                (requests_for answers prompt p (with_output answers prompt p (outputs_of ds) s)
                  rest)
                asks,
      )

  -- Where all stages have delivered, a pass completes the pipeline, asks no agent and leaves all
  -- ConfigMaps.
  reconcile-complete_pipeline :
      (t : Trace) (ds : List Delivery)
      → Delivering env p0 p t ds []
      → reconcile env key t ≡ complete_pipeline env (stored p0 t) (Call.get_pipeline key ∷ t)
  unfolding reconcile fetch handle_fetched handle_found handle_unless_deleted handle_phase
      handle_running handle_current find_current_stage
  reconcile-complete_pipeline t ds at =
      let now_p : AgentPipeline = stored p0 t in
      let t1 : Trace = Call.get_pipeline key ∷ t in
      ap (λ x. handle_fetched env x t1) (consistent.reads t)
      ∙ ap (λ x. handle_unless_deleted env x now_p t1)
          (ap (λ (m : ObjectMeta). m.deletion_timestamp) at.same_meta ∙ alive)
      ∙ ap (λ x. handle_phase env x now_p t1) at.running
      ∙ ap (λ x. handle_current env x now_p t1)
          (ap (λ specs. find_loop specs 0 now_p.status.stages)
              (ap (λ sp. sp.stages) at.same_spec ∙ at.split)
            ∙ ap (find_loop (specs_of ds ++ []) 0) at.statuses
            ∙ find_loop-all_Named ds (AllDelivered-Named env p.meta t ds at.delivered))

  completes :
      (t : Trace) (ds : List Delivery)
      → Delivering env p0 p t ds []
      → let after = (reconcile env key t).1 in
        ((stored p0 after).status.phase ≡ PipelinePhase.completed)
        × (requests after ≡ requests t)
        × AllKept env p.meta after (outputs_of ds)
  unfolding stored requests end_pipeline
  completes t ds at =
      let now_p : AgentPipeline = stored p0 t in
      let t1 : Trace = Call.get_pipeline key ∷ t in
      subst
        (λ (x : Outcome × Trace).
          ((stored p0 x.1).status.phase ≡ PipelinePhase.completed)
          × (requests x.1 ≡ requests t)
          × AllKept env p.meta x.1 (outputs_of ds))
        (sym (reconcile-complete_pipeline t ds at))
        (
          elim (complete_pipeline-MayWrite env p0 now_p t1) [
            | inl (fault, _) ↦ absurd (faultless fault)
            | inr e ↦ ap (λ (q : AgentPipeline). q.status.phase) e
          ],
          complete_pipeline-requests env now_p t1,
          AllDelivered-AllKept env p.meta _ ds (
              AllDelivered-later env keeps p.meta t _ ds
                (λ k.
                  complete_pipeline-get_config_map env keeps k now_p t1
                  ∙ keeps.untouched t _ k refl)
                at.delivered),
        )

  -- From where no stage has begun, one pass for each stage and one more complete the pipeline.
  pub passes-completed :
      (t : Trace)
      → Delivering env p0 p t [] p.spec.stages
      → let after = passes env key (suc (length p.spec.stages)) t in
        ((stored p0 after).status.phase ≡ PipelinePhase.completed)
        × (requests after ≡ requests_for answers prompt p [] p.spec.stages (requests t))
        × AllKept env p.meta after (outputs_for answers prompt p [] p.spec.stages)
  passes-completed t start =
      let (all, last, outputs, requested) = passes-Delivering t [] p.spec.stages start in
      let t' = passes env key (length p.spec.stages) t in
      let (done, asked, kept) = completes t' all last in
      subst
        (λ after.
          ((stored p0 after).status.phase ≡ PipelinePhase.completed)
          × (requests after ≡ requests_for answers prompt p [] p.spec.stages (requests t))
          × AllKept env p.meta after (outputs_for answers prompt p [] p.spec.stages))
        (sym (passes-suc env key (length p.spec.stages) t))
        (done, asked ∙ requested, subst (AllKept env p.meta (reconcile env key t').1) outputs kept)
