-- ===== src/Controller/Storing.antt =====
-- The completion of a stage whose agent has answered, and the calls before it.
use cluster.Prelude.{
  some, set, set-set, refl, false, Str, lit, ℕ, none, ◌∷◌, ◌++◌, ◌≡◌, sym, ap, subst, ◌∙◌,
}
use cluster.Api.{StagePhase, Time, StageSpec, StageStatus, AgentPipeline}
use cluster.Runner.Types.{Result, ok, RunStatus, RunRequest, RunResult}
use cluster.Controller.Env.{
  EventType, Env, ObjectKey, ConfigMap, Trace, Call, invoke, clock, record_event,
}
use cluster.Controller.Stages.{set_stage, output_config_map_name, truncate_output}
use cluster.Controller.Handler.{
  PipelineContext, replace_output, build_pipeline_context, render_prompt,
}
use cluster.Controller.Updates.{begin_stage, begun, end_stage}
use cluster.Controller.Reconciler.{
  agent_request, finish_stage, complete_stage, dispatch_result, handle_answer, run_stage,
  prompt_stage, execute_stage,
}
use cluster.Controller.Server.{stored, requests}
use cluster.Controller.Writes.{Written, commit-Written}
use cluster.Controller.Requests.{commit-requests}
use cluster.Controller.Runs.{request_to, own_output}
use cluster.Controller.Recovery.{name_of_output, Holds}
use cluster.Controller.Keeping.{
  same_key, KeepsConfigMaps, AcceptsConfigMaps, store_output_lem, commit-get_config_map,
}

-- The pipeline in which stage `i` alone has changed, to Completed by the result `r`, and the name of
-- the current stage.
abbrev pub finished :
    Time → Time → AgentPipeline → ℕ → StageSpec → StageStatus → RunResult → AgentPipeline
finished start end p i s c r = record p {
  status = record p.status {
    current_stage = s.name;
    stages = set p.status.stages i (record c {
      phase = StagePhase.completed;
      started_at = some start;
      completed_at = some end;
      output = truncate_output r.output;
      output_ref = name_of_output p s;
      task_id = r.task_id;
    });
  };
}

-- From the calls `before` to the calls `after`: the ConfigMap of the stage is stored and holds the
-- output, and behind that the pipeline with the stage Completed is written.
abbrev pub Completes :
    Env
    → AgentPipeline
    → Time
    → AgentPipeline
    → ℕ
    → StageSpec
    → StageStatus
    → RunResult
    → Trace
    → Trace
    → Type 0
Completes env p0 start p i s c r before after =
    Holds (env.get_config_map after (own_output p s)) r.output
    × ((cm : ConfigMap) × (mutate : ConfigMap → ConfigMap) × (let write =
            Call.create_or_update cm mutate none ∷ before in
          Written env write (finished start (env.now write) p i s c r) (stored p0 before)
            (stored p0 after)))

-- The event at the start of a stage.
abbrev pub started : Env → StageSpec → Trace → Trace
started env s t =
    Call.event EventType.normal (lit "StageStarted") (
      lit "Stage "
      ++ (env.quote s.name ++ (lit " started (agent: " ++ (s.agent_ref.name ++ lit ")"))))
    ∷ t

module _ (env : Env) (accepts : AcceptsConfigMaps env) (keeps : KeepsConfigMaps env)
    (p0 : AgentPipeline) (start : Time) (p : AgentPipeline) (i : ℕ) (s : StageSpec)
    (c : StageStatus) where
  abbrev q : AgentPipeline
  q = begin_stage start i s c p

  abbrev ended : Time → RunResult → StageStatus
  ended end r =
      record (end_stage end (truncate_output r.output) (output_config_map_name p.meta.name s.name)
        (begun start c)) { task_id = r.task_id }

  pub complete_stage-Completes :
      (r : RunResult) (t : Trace)
      → let after = (complete_stage env q i s (begun start c) r t).1 in
        (requests after ≡ requests t) × Completes env p0 start p i s c r t after
  unfolding begin_stage begun end_stage stored requests complete_stage finish_stage clock
      replace_output output_config_map_name
  complete_stage-Completes r t =
      let held = store_output_lem env accepts keeps q s r.output t in
      let cm : ConfigMap = held.0 in
      let t1 : Trace = Call.create_or_update cm (replace_output r.output) none ∷ t in
      let written = keeps.written t cm (replace_output r.output) (accepts.stores t cm _) in
      let same : set_stage q i (ended (env.now t1) r) ≡ finished start (env.now t1) p i s c r =
        ap (λ cs. record p { status = record p.status { current_stage = s.name; stages = cs } })
          (set-set p.status.stages i (begun start c) (ended (env.now t1) r)) in
      subst
        (λ (x : Result (Str × Str) × Trace).
          let after = (finish_stage env x.0 q i s (begun start c) r x.1).1 in
          (requests after ≡ requests t) × Completes env p0 start p i s c r t after)
        (sym held.2)
        (
          commit-requests env _ _ _ _ _ _ t1,
          (
            (
              replace_output r.output written.0,
              commit-get_config_map env keeps (own_output p s) _ _ _ _ _ _ t1
                  ∙ ap (λ k. env.get_config_map t1 k) (sym held.1)
                  ∙ written.1,
              refl,
            ),
            (
              cm,
              replace_output r.output,
              subst
                  (λ x. Written env t1 x (stored p0 t) (
                    stored p0
                      (finish_stage env
                        (ok (output_config_map_name p.meta.name s.name, truncate_output r.output)) q
                        i s (begun start c) r t1).1))
                  same (commit-Written env p0 _ _ _ _ _ _ t1),
            ),
          ),
        )

  -- The other ConfigMaps stay.
  pub complete_stage-get_config_map :
      (r : RunResult) (t : Trace) (k : ObjectKey)
      → same_key (own_output p s) k ≡ false
      → env.get_config_map (complete_stage env q i s (begun start c) r t).1 k
        ≡ env.get_config_map t k
  unfolding begin_stage complete_stage finish_stage clock
  complete_stage-get_config_map r t k other =
      let held = store_output_lem env accepts keeps q s r.output t in
      let t1 : Trace = Call.create_or_update held.0 (replace_output r.output) none ∷ t in
      subst
        (λ (x : Result (Str × Str) × Trace).
          env.get_config_map (finish_stage env x.0 q i s (begun start c) r x.1).1 k
          ≡ env.get_config_map t k)
        (sym held.2)
        (commit-get_config_map env keeps k _ _ _ _ _ _ t1
          ∙ keeps.untouched t _ k (ap (λ j. same_key j k) held.1 ∙ other))

  -- From the start of a stage to the answer of its agent.
  pub execute_stage-complete_stage :
      (t : Trace) (pc : PipelineContext) (prompt : Str) (r : RunResult)
      → let b = build_pipeline_context env q s (started env s t) in
        b.0 ≡ ok pc
        → render_prompt env s pc ≡ ok prompt
        → env.run_agent b.1 (request_to p s prompt) ≡ ok r
        → r.status ≡ RunStatus.completed
        → execute_stage env q i s (begun start c) t
          ≡ complete_stage env q i s
              (begun start c)
              r
              (Call.run_agent (request_to p s prompt) ∷ b.1)
  unfolding execute_stage record_event prompt_stage run_stage invoke handle_answer dispatch_result
      begin_stage agent_request
  execute_stage-complete_stage t pc prompt r built rendered answered completed =
      let b = build_pipeline_context env q s (started env s t) in
      let req : RunRequest = request_to p s prompt in
      ap (λ x. prompt_stage env x q i s (begun start c) b.1) built
      ∙ ap (λ x. run_stage env x q i s (begun start c) b.1) rendered
      ∙ ap (λ x. handle_answer env x q i s (begun start c) (Call.run_agent req ∷ b.1)) answered
      ∙ ap (λ x. dispatch_result env x q i s (begun start c) r (Call.run_agent req ∷ b.1)) completed
