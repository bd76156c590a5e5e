-- ===== src/Controller/Rounds.antt =====
-- One pass over a pipeline whose agents all answer delivers one stage.
use cluster.Prelude.{
  Str, false, none, List, [], ◌∷◌, ◌++◌, length, set, ◌≡◌, refl, sym, ap, subst, ◌∙◌, inl, inr,
}
use cluster.Api.{Time, StageSpec, StageStatus, ObjectMeta, AgentPipeline}
use cluster.Runner.Types.{ok, err, RunStatus, RunRequest, RunResult}
use cluster.Controller.Env.{Env, ObjectKey, Trace, Call}
use cluster.Controller.Stages.{
  find_current_stage, find_loop, init_stage, init_stages, output_config_map_name, truncate_output,
}
use cluster.Controller.Handler.{
  PipelineContext, replace_output, build_pipeline_context, context_loop, render_prompt,
}
use cluster.Controller.Updates.{begin_stage, begun, end_stage}
use cluster.Controller.Reconciler.{reconcile}
use cluster.Controller.Server.{stored, requests, IsConsistent}
use cluster.Controller.Steps.{Fault, status_refused}
use cluster.Controller.Dependencies.{Ordered}
use cluster.Controller.Runs.{request_to, own_output}
use cluster.Controller.Keeping.{KeepsConfigMaps, AcceptsConfigMaps, same_key}
use cluster.Controller.Storing.{finished, started}
use cluster.Controller.Completion.{
  asked_at, IsNext, Answers, looked_up, reconcile-Completes, reconcile-get_config_map,
}
use cluster.Controller.Deliveries.{
  Delivery, specs_of, find_loop-Named, are_dependencies_met-Named, set-length,
}
use cluster.Controller.Handover.{
  outputs_of, gather, context_of, output_key, AllDelivered-later, context_loop-AllDelivered,
}
use cluster.Controller.Distinct.{
  Distinct-append, Distinct, AllDelivered-others, AllUnread-others, Distinct-append,
}
use cluster.Controller.Delivery.{
  request_for, Delivering, AllDelivered-Named, request_to-meta, statuses_of-append, specs_of-append,
  AllDelivered-append,
}

module _ (env : Env) (key : ObjectKey) (p0 p : AgentPipeline) (answers : RunRequest → RunResult)
    (prompt : StageSpec → PipelineContext → Str) (consistent : IsConsistent env key p0)
    (accepts : AcceptsConfigMaps env) (keeps : KeepsConfigMaps env) (faultless : ¬ Fault env)
    (alive : p.meta.deletion_timestamp ≡ none) (ordered : Ordered [] p.spec.stages)
    (distinct : Distinct p.spec.stages)
    (answered : (t : Trace) (req : RunRequest) → env.run_agent t req ≡ ok (answers req))
    (succeeds : (req : RunRequest) → (answers req).status ≡ RunStatus.completed)
    (rendered : (s : StageSpec) (pc : PipelineContext)
      → render_prompt env s pc ≡ ok (prompt s pc)) where
  module _ (t : Trace) (ds : List Delivery) (s : StageSpec) (rest : List StageSpec)
      (at : Delivering env p0 p t ds (s ∷ rest)) where
    abbrev now_p : AgentPipeline
    now_p = stored p0 t

    specs : now_p.spec.stages ≡ specs_of ds ++ (s ∷ rest)
    specs = ap (λ sp. sp.stages) at.same_spec ∙ at.split

    next : IsNext now_p (length ds) s (init_stage s)
    unfolding find_current_stage
    next =
        let named = AllDelivered-Named env p.meta t ds at.delivered in
        (
          ap (λ (m : ObjectMeta). m.deletion_timestamp) at.same_meta ∙ alive,
          at.running,
          ap (λ specs. find_loop specs 0 now_p.status.stages) specs
              ∙ ap (find_loop (specs_of ds ++ (s ∷ rest)) 0) at.statuses
              ∙ find_loop-Named ds s rest named,
          are_dependencies_met-Named now_p ds s rest named (subst (Ordered []) at.split ordered)
              at.statuses,
          refl,
        )

    own_key : own_output now_p s ≡ output_key p.meta s.name
    own_key = ap (λ m. output_key m s.name) at.same_meta

    no_output :
        (e : Str) × (env.get_config_map (Call.get_pipeline key ∷ t) (own_output now_p s) ≡ err e)
    no_output =
        let (e, h) = at.unread.0 in
        (
          e,
          ap (env.get_config_map (Call.get_pipeline key ∷ t)) own_key
              ∙ keeps.untouched t _ (output_key p.meta s.name) refl
              ∙ h,
        )

    abbrev text : Str
    text = prompt s (context_of p.spec.stages s (outputs_of ds))

    abbrev req : RunRequest
    req = request_to now_p s text

    same_request : req ≡ request_for answers prompt p (outputs_of ds) s
    same_request = request_to-meta p now_p s text at.same_meta

    -- What is asked of the prompt's context.
    built :
        (start : Time)
        → let q = begin_stage start (length ds) s (init_stage s) now_p in
          (build_pipeline_context env q s (started env s (looked_up key now_p s t))).0
          ≡ ok (context_of p.spec.stages s (outputs_of ds))
    unfolding build_pipeline_context begin_stage init_stages begun
    built start =
        let t3 = started env s (looked_up key now_p s t) in
        let q : AgentPipeline = begin_stage start (length ds) s (init_stage s) now_p in
        let c : StageStatus = begun start (init_stage s) in
        let pc : PipelineContext = record {
          previous_output = [];
          inputs = s.inputs;
          stage_outputs = [];
        } in
        ap (λ cs. (context_loop env q s 0 cs pc t3).0)
          (ap (λ cs. set cs (length ds) c) at.statuses
            ∙ set-length ds (init_stage s) c (init_stages rest))
        ∙ context_loop-AllDelivered env keeps p.meta q at.same_meta s 0 ds c rest pc t3 refl (
            AllDelivered-later env keeps p.meta t t3 ds
              (λ k.
                keeps.untouched _ _ k refl
                ∙ keeps.untouched _ _ k refl
                ∙ keeps.untouched t _ k refl)
              at.delivered)
        ∙ ap (λ sp. ok (gather sp.stages s 0 (outputs_of ds) pc)) at.same_spec

    asked : Answers env key now_p (length ds) s (init_stage s) text (answers req) t
    asked = (
      context_of p.spec.stages s (outputs_of ds),
      built (env.now (looked_up key now_p s t)),
      rendered s (context_of p.spec.stages s (outputs_of ds)),
      answered _ req,
      succeeds req,
    )

    abbrev after : Trace
    after = (reconcile env key t).1

    -- The stage as it is delivered at the time `end`.
    abbrev pub delivery : Time → Delivery
    delivery end = record {
      spec = s;
      status =
          record (end_stage end (truncate_output (answers req).output)
            (output_config_map_name now_p.meta.name s.name)
            (begun (env.now (looked_up key now_p s t)) (init_stage s))) {
              task_id = (answers req).task_id;
            };
      output = (answers (request_for answers prompt p (outputs_of ds) s)).output;
    }

    others :
        (k : ObjectKey)
        → same_key (output_key p.meta s.name) k ≡ false
        → env.get_config_map after k ≡ env.get_config_map t k
    others k other =
        reconcile-get_config_map env accepts keeps key p0 now_p (length ds) s (init_stage s) text
          (answers req) t no_output.0 k (consistent.reads t) next no_output.1 asked
          (ap (λ j. same_key j k) own_key ∙ other)

    -- One pass delivers the next stage.
    pub reconcile-Delivering :
        (end : Time) × Delivering env p0 p after (ds ++ (delivery end ∷ [])) rest
        × (requests after ≡ request_for answers prompt p (outputs_of ds) s ∷ requests t)
    unfolding begun end_stage init_stages replace_output output_config_map_name
    reconcile-Delivering =
        let completes =
          reconcile-Completes env accepts keeps key p0 now_p (length ds) s (init_stage s) text
            (answers req) t no_output.0 (consistent.reads t) next no_output.1 asked in
        let (cm, held, holds) = completes.2.0 in
        let (stored_map, mutate, wrote) = completes.2.1 in
        let end = env.now (
          Call.create_or_update stored_map mutate none
          ∷ (asked_at env key now_p (length ds) s (init_stage s) text t)) in
        let start : Time = env.now (looked_up key now_p s t) in
        let st = (finished start end now_p (length ds) s (init_stage s) (answers req)).status in
        let d = delivery end in
        let written : stored p0 after ≡ record now_p { status = st } = elim wrote [
          | inl (accepted, e) ↦ e ∙ ap (λ (o : AgentPipeline). record o { status = st }) completes.1
          | inr (e, refused, _) ↦ absurd (faultless (status_refused _ _ e refused))
        ] in
        (
          end,
          record {
            same_meta = ap (λ (q : AgentPipeline). q.meta) written ∙ at.same_meta;
            same_spec = ap (λ (q : AgentPipeline). q.spec) written ∙ at.same_spec;
            running = ap (λ (q : AgentPipeline). q.status.phase) written ∙ at.running;
            split = at.split ∙ specs_of-append ds d rest;
            statuses =
                ap (λ (q : AgentPipeline). q.status.stages) written
                ∙ ap (λ cs. set cs (length ds) d.status) at.statuses
                ∙ set-length ds (init_stage s) d.status (init_stages rest)
                ∙ statuses_of-append ds d (init_stages rest);
            delivered =
                AllDelivered-append env p.meta after ds d
                  (AllDelivered-others env p.meta t after s others ds rest
                    (subst Distinct at.split distinct) at.delivered)
                  (record {
                    phase = refl;
                    named = refl;
                    output_ref =
                        ap (λ (m : ObjectMeta). output_config_map_name m.name s.name) at.same_meta;
                    base = cm;
                    kept =
                        ap (env.get_config_map after) (sym own_key)
                        ∙ held
                        ∙ ap (λ contents. ok (record cm { contents = contents })) holds
                        ∙ ap (λ x. ok (replace_output (answers x).output cm)) same_request;
                  });
            unread =
                AllUnread-others env p.meta t after s others rest
                  (Distinct-append ds s rest (subst Distinct at.split distinct)) at.unread.1;
          },
          completes.0 ∙ ap (λ x. x ∷ requests t) same_request,
        )
