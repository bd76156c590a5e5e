-- ===== src/Controller/Completion.antt =====
-- A pass in which an agent answers: what is asked, stored and written, and what the next pass does if
-- the status is lost.
use cluster.Prelude.{false, Str, ℕ, true, none, ◌∷◌, ◌≡◌, refl, sym, ap, subst, ◌∙◌}
use cluster.Api.{PipelinePhase, StagePhase, Time, StageSpec, StageStatus, AgentPipeline}
use cluster.Runner.Types.{ok, err, RunStatus, RunResult}
use cluster.Controller.Env.{Env, ObjectKey, found, Trace, Call, fetch, read, clock}
use cluster.Controller.Stages.{stage, find_current_stage, are_dependencies_met}
use cluster.Controller.Handler.{
  PipelineContext, read_config_map_output, build_pipeline_context, render_prompt,
}
use cluster.Controller.Outcome.{Outcome}
use cluster.Controller.Updates.{begin_stage, begun}
use cluster.Controller.Reconciler.{
  complete_stage, execute_stage, recover_or_execute, start_stage, handle_fetched, reconcile,
}
use cluster.Controller.Server.{stored, requests, IsConsistent, passes}
use cluster.Controller.Writes.{Written, context_loop-stored}
use cluster.Controller.Requests.{context_loop-requests}
use cluster.Controller.Runs.{request_to, own_output}
use cluster.Controller.Recovery.{handle_found-start_stage, recovered, reconcile-recovers}
use cluster.Controller.Keeping.{
  same_key, context_loop-get_config_map, KeepsConfigMaps, AcceptsConfigMaps,
}
use cluster.Controller.Storing.{
  Completes, started, complete_stage-Completes, execute_stage-complete_stage,
  complete_stage-get_config_map,
}

-- The stage is pending and next, with its dependencies met, in a live running pipeline.
abbrev pub IsNext : AgentPipeline → ℕ → StageSpec → StageStatus → Type 0
IsNext p i s c =
    (p.meta.deletion_timestamp ≡ none)
    × (p.status.phase ≡ PipelinePhase.running)
    × (find_current_stage p ≡ stage i s c)
    × (are_dependencies_met p s ≡ true)
    × (c.phase ≡ StagePhase.pending)

-- The calls of a pass over `p` before it starts stage `s`.
abbrev pub looked_up : ObjectKey → AgentPipeline → StageSpec → Trace → Trace
looked_up key p s t = Call.get_config_map (own_output p s) ∷ Call.get_pipeline key ∷ t

-- `prompt` is rendered for the stage that a pass over `p` starts, and the agent answers with `r`.
abbrev pub Answers :
    Env → ObjectKey → AgentPipeline → ℕ → StageSpec → StageStatus → Str → RunResult → Trace → Type 0
Answers env key p i s c prompt r t =
    let t2 = looked_up key p s t in
    let b = build_pipeline_context env (begin_stage (env.now t2) i s c p) s (started env s t2) in
    (pc : PipelineContext) × (b.0 ≡ ok pc)
    × (render_prompt env s pc ≡ ok prompt)
    × (env.run_agent b.1 (request_to p s prompt) ≡ ok r)
    × (r.status ≡ RunStatus.completed)

-- The calls of such a pass before the completion of the stage.
abbrev pub asked_at :
    Env → ObjectKey → AgentPipeline → ℕ → StageSpec → StageStatus → Str → Trace → Trace
asked_at env key p i s c prompt t =
    let t2 = looked_up key p s t in
    Call.run_agent (request_to p s prompt)
    ∷ (build_pipeline_context env (begin_stage (env.now t2) i s c p) s (started env s t2)).1

module _ (env : Env) (accepts : AcceptsConfigMaps env) (keeps : KeepsConfigMaps env)
    (key : ObjectKey) (p0 p : AgentPipeline) (i : ℕ) (s : StageSpec) (c : StageStatus)
    (prompt : Str) (r : RunResult) where
  start_stage-execute_stage :
      (t : Trace) (e : Str)
      → env.get_config_map t (own_output p s) ≡ err e
      → let t2 = Call.get_config_map (own_output p s) ∷ t in
        start_stage env p i s c t
        ≡ execute_stage env (begin_stage (env.now t2) i s c p) i s (begun (env.now t2) c) t2
  unfolding start_stage read_config_map_output read recover_or_execute clock
  start_stage-execute_stage t e h = rw (h, start_stage, recover_or_execute) refl

  abbrev pub start_of : Trace → Time
  start_of t = env.now (looked_up key p s t)

  abbrev answered_at : Trace → Trace
  answered_at t = asked_at env key p i s c prompt t

  -- Such a pass is the completion of the stage behind these calls.
  pub reconcile-complete_stage :
      (t : Trace) (e : Str)
      → env.get_pipeline t key ≡ found p
      → IsNext p i s c
      → env.get_config_map (Call.get_pipeline key ∷ t) (own_output p s) ≡ err e
      → Answers env key p i s c prompt r t
      → reconcile env key t
        ≡ complete_stage env
            (begin_stage (start_of t) i s c p)
            i
            s
            (begun (start_of t) c)
            r
            (answered_at t)
  unfolding reconcile fetch
  reconcile-complete_stage t e there (alive, running, current, met, pending) unread
        (pc, built, rendered, answered, completed) =
      let t1 : Trace = Call.get_pipeline key ∷ t in
      let t2 = looked_up key p s t in
      ap (λ x. handle_fetched env x t1) there
      ∙ (unfold handle_fetched in
          handle_found-start_stage env p i s c prompt t1 alive running current met pending)
      ∙ start_stage-execute_stage t1 e unread
      ∙ execute_stage-complete_stage env accepts keeps p0 (env.now t2) p i s c t2 pc prompt r built
          rendered answered completed

  -- Where writes of ConfigMaps are never refused and leave what they should, a pass over a running
  -- pipeline that is not being deleted, whose pending current stage has its dependencies met and no
  -- output that can be read, and whose agent completes the run, asks that agent alone and once, with
  -- the stage's request. Behind it the ConfigMap of the stage holds the whole output of the agent. The
  -- pass writes the pipeline in which that stage is Completed, with the times, the truncated output,
  -- the name of that ConfigMap and the id of the task, the current stage is named by it, and all else
  -- is as it was: if this write is accepted the stored pipeline has that status, and if it is refused
  -- the stored pipeline is unchanged.
  pub reconcile-Completes :
      (t : Trace) (e : Str)
      → env.get_pipeline t key ≡ found p
      → IsNext p i s c
      → env.get_config_map (Call.get_pipeline key ∷ t) (own_output p s) ≡ err e
      → Answers env key p i s c prompt r t
      → let after = (reconcile env key t).1 in
        let asked = asked_at env key p i s c prompt t in
        (requests after ≡ request_to p s prompt ∷ requests t)
        × (stored p0 asked ≡ stored p0 t)
        × Completes env p0 (env.now (looked_up key p s t)) p i s c r asked after
  unfolding requests stored build_pipeline_context
  reconcile-Completes t e there next unread answers =
      let start : Time = start_of t in
      let t4 = answered_at t in
      let q : AgentPipeline = begin_stage start i s c p in
      let t3 = started env s (looked_up key p s t) in
      let completes = complete_stage-Completes env accepts keeps p0 start p i s c r t4 in
      subst
        (λ (x : Outcome × Trace).
          (requests x.1 ≡ request_to p s prompt ∷ requests t)
          × (stored p0 t4 ≡ stored p0 t)
          × Completes env p0 start p i s c r t4 x.1)
        (sym (reconcile-complete_stage t e there next unread answers))
        (
          completes.0
              ∙ ap (λ reqs. request_to p s prompt ∷ reqs)
                  (context_loop-requests env q s 0 q.status.stages _ t3),
          context_loop-stored env p0 q s 0 q.status.stages _ t3,
          completes.1,
        )

  -- Such a pass leaves all other ConfigMaps.
  pub reconcile-get_config_map :
      (t : Trace) (e : Str) (k : ObjectKey)
      → env.get_pipeline t key ≡ found p
      → IsNext p i s c
      → env.get_config_map (Call.get_pipeline key ∷ t) (own_output p s) ≡ err e
      → Answers env key p i s c prompt r t
      → same_key (own_output p s) k ≡ false
      → env.get_config_map (reconcile env key t).1 k ≡ env.get_config_map t k
  unfolding build_pipeline_context
  reconcile-get_config_map t e k there next unread answers other =
      let q : AgentPipeline = begin_stage (start_of t) i s c p in
      ap (λ (x : Outcome × Trace). env.get_config_map x.1 k)
        (reconcile-complete_stage t e there next unread answers)
      ∙ complete_stage-get_config_map env accepts keeps p0 (start_of t) p i s c r (answered_at t) k
          other
      ∙ keeps.untouched _ _ k refl
      ∙ context_loop-get_config_map env keeps k q s 0 q.status.stages _
          (started env s (looked_up key p s t))
      ∙ keeps.untouched _ _ k refl
      ∙ keeps.untouched _ _ k refl
      ∙ keeps.untouched t _ k refl

  -- If the status of such a pass is lost, the stored pipeline being as before, the next pass asks no
  -- agent, so that the agent is asked once in both: it reads the output back from the ConfigMap and
  -- writes the pipeline in which that stage is Completed now, with the output of the agent, truncated,
  -- and the name of the ConfigMap, and all else is as it was. If this write is accepted the stored
  -- pipeline has that status, and if it is refused too the stored pipeline is as before. Reads give
  -- what is stored, and writes of ConfigMaps are never refused and leave what they should.
  pub passes-recover :
      (t : Trace) (e : Str)
      → IsConsistent env key p0
      → stored p0 t ≡ p
      → IsNext p i s c
      → env.get_config_map (Call.get_pipeline key ∷ t) (own_output p s) ≡ err e
      → Answers env key p i s c prompt r t
      → stored p0 (reconcile env key t).1 ≡ p
      → let after = passes env key 2 t in
        let second = looked_up key p s (reconcile env key t).1 in
        (requests after ≡ request_to p s prompt ∷ requests t)
        × Written env second (recovered (env.now second) p i s c r.output) p (stored p0 after)
  unfolding passes
  passes-recover t e consistent now_p next unread answers lost =
      let t' = (reconcile env key t).1 in
      let second = looked_up key p s t' in
      let first =
        reconcile-Completes t e (consistent.reads t ∙ ap found now_p) next unread answers in
      let (cm, held, holds) = first.2.0 in
      let recovers =
        reconcile-recovers env key p0 p t' i s c r.output (consistent.reads t' ∙ ap found lost)
          next.0 next.1 next.2 next.3 next.4
          (cm, keeps.untouched t' _ (own_output p s) refl ∙ held, holds) in
      (
        recovers.0 ∙ first.0,
        subst
            (λ old.
              Written env second (recovered (env.now second) p i s c r.output) old
                (stored p0 (reconcile env key t').1))
            lost recovers.1,
      )
