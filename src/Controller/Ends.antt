-- ===== src/Controller/Ends.antt =====
-- What `startStage` leaves in the stored pipeline, whatever the API, the agent and the templates do.
use cluster.Prelude.{Str, ℕ, ◌∷◌, set-set, set-set, lit, ◌++◌, ◌≡◌, refl, ap, inl, inr}
use cluster.Api.{StageSpec, StageStatus, AgentPipeline}
use cluster.Runner.Types.{Result, ok, err, RunStatus, RunResult}
use cluster.Controller.Env.{normal, Env, Trace, Call, invoke, read, clock, record_event}
use cluster.Controller.Stages.{output_config_map_name, truncate_output}
use cluster.Controller.Handler.{
  PipelineContext, build_pipeline_context, store_output, read_config_map_output,
}
use cluster.Controller.Updates.{abort_stage, end_stage, begin_stage, begun}
use cluster.Controller.Reconciler.{
  finish_stage, handle_answer, prompt_stage, recover_or_execute, agent_request, fail_stage,
  complete_stage, complete_stage_from_output, dispatch_result, run_stage, execute_stage,
  start_stage,
}
use cluster.Controller.Steps.{Fault}
use cluster.Controller.Server.{stored}
use cluster.Controller.Writes.{
  commit-MayWrite, store_output-Fault, fail_stage-MayWrite, complete_stage_from_output-MayWrite,
  store_output-stored, store_output-names, context_loop-stored,
}
use cluster.Controller.Endings.{
  MayEnd, StageEnd, MayWrite-MayEnd, MayEnd-from, MayEnd-StageEnd, untouched, ended, idle, done,
}

module _ (env : Env) (p0 : AgentPipeline) where
  fail_stage-MayEnd :
      (ref : Str) (p : AgentPipeline) (i : ℕ) (c : StageStatus) (message : Str) (t : Trace)
      → MayEnd env ref p i c (stored p0 t) (stored p0 (fail_stage env p i c message t).1)
  unfolding abort_stage
  fail_stage-MayEnd ref p i c message t =
      MayWrite-MayEnd (abort_stage (env.now t) message c)
        (record { name = refl; retries = refl; phase = inl refl })
        (fail_stage-MayWrite env p0 p i c message t)

  complete_stage_from_output-MayEnd :
      (p : AgentPipeline) (i : ℕ) (s : StageSpec) (c : StageStatus) (output : Str) (t : Trace)
      → MayEnd env
          (output_config_map_name p.meta.name s.name)
          p
          i
          c
          (stored p0 t)
          (stored p0 (complete_stage_from_output env p i s c output t).1)
  unfolding end_stage
  complete_stage_from_output-MayEnd p i s c output t =
      MayWrite-MayEnd
        (end_stage (env.now t) (truncate_output output) (output_config_map_name p.meta.name s.name)
          c)
        (record { name = refl; retries = refl; phase = inr (refl, refl) })
        (complete_stage_from_output-MayWrite env p0 p i s c output t)

  finish_stage-MayEnd :
      (p : AgentPipeline) (i : ℕ) (s : StageSpec) (c : StageStatus) (result : RunResult) (t : Trace)
      (r : Result (Str × Str))
      → ((x : Str × Str) → r ≡ ok x → x.0 ≡ output_config_map_name p.meta.name s.name)
      → ((e : Str) → r ≡ err e → Fault env)
      → MayEnd env
          (output_config_map_name p.meta.name s.name)
          p
          i
          c
          (stored p0 t)
          (stored p0 (finish_stage env r p i s c result t).1)
  unfolding finish_stage clock
  finish_stage-MayEnd p i s c result t (err e) named faulty = untouched (faulty e refl) refl
  finish_stage-MayEnd p i s c result t (ok (name, cut)) named faulty =
      MayWrite-MayEnd (record (end_stage (env.now t) cut name c) { task_id = result.task_id })
        (unfold end_stage in
          record { name = refl; retries = refl; phase = inr (refl, named (name, cut) refl) })
        (commit-MayWrite env p0 _ _ _ _ _ _ t)

  complete_stage-MayEnd :
      (p : AgentPipeline) (i : ℕ) (s : StageSpec) (c : StageStatus) (result : RunResult) (t : Trace)
      → MayEnd env
          (output_config_map_name p.meta.name s.name)
          p
          i
          c
          (stored p0 t)
          (stored p0 (complete_stage env p i s c result t).1)
  unfolding complete_stage
  complete_stage-MayEnd p i s c result t =
      let r = store_output env p s.name result.output t in
      MayEnd-from (store_output-stored env p0 p s.name result.output t) (
        finish_stage-MayEnd p i s c result r.1 r.0
          (λ x h.
            ap (λ (y : Str × Str). y.0) (store_output-names env p0 p s.name result.output t x h))
          (store_output-Fault env p0 p s.name result.output t))

  dispatch_result-MayEnd :
      (status : RunStatus) (p : AgentPipeline) (i : ℕ) (s : StageSpec) (c : StageStatus)
      (result : RunResult) (t : Trace)
      → MayEnd env
          (output_config_map_name p.meta.name s.name)
          p
          i
          c
          (stored p0 t)
          (stored p0 (dispatch_result env status p i s c result t).1)
  unfolding dispatch_result
  dispatch_result-MayEnd RunStatus.completed p i s c result t =
      complete_stage-MayEnd p i s c result t
  dispatch_result-MayEnd RunStatus.unset p i s c result t = fail_stage-MayEnd _ p i c _ t
  dispatch_result-MayEnd RunStatus.failed p i s c result t = fail_stage-MayEnd _ p i c _ t
  dispatch_result-MayEnd RunStatus.timed_out p i s c result t = fail_stage-MayEnd _ p i c _ t
  dispatch_result-MayEnd (RunStatus.other x) p i s c result t = fail_stage-MayEnd _ p i c _ t

  handle_answer-MayEnd :
      (answer : Result RunResult) (p : AgentPipeline) (i : ℕ) (s : StageSpec) (c : StageStatus)
      (t : Trace)
      → MayEnd env
          (output_config_map_name p.meta.name s.name)
          p
          i
          c
          (stored p0 t)
          (stored p0 (handle_answer env answer p i s c t).1)
  unfolding handle_answer
  handle_answer-MayEnd (ok result) p i s c t = dispatch_result-MayEnd result.status p i s c result t
  handle_answer-MayEnd (err e) p i s c t = fail_stage-MayEnd _ p i c _ t

  run_stage-MayEnd :
      (prompt : Result Str) (p : AgentPipeline) (i : ℕ) (s : StageSpec) (c : StageStatus)
      (t : Trace)
      → MayEnd env
          (output_config_map_name p.meta.name s.name)
          p
          i
          c
          (stored p0 t)
          (stored p0 (run_stage env prompt p i s c t).1)
  unfolding run_stage invoke stored
  run_stage-MayEnd (err e) p i s c t = fail_stage-MayEnd _ p i c _ t
  run_stage-MayEnd (ok prompt) p i s c t =
      let request = agent_request p s prompt in
      handle_answer-MayEnd (env.run_agent t request) p i s c (Call.run_agent request ∷ t)

  prompt_stage-MayEnd :
      (context : Result PipelineContext) (p : AgentPipeline) (i : ℕ) (s : StageSpec)
      (c : StageStatus) (t : Trace)
      → MayEnd env
          (output_config_map_name p.meta.name s.name)
          p
          i
          c
          (stored p0 t)
          (stored p0 (prompt_stage env context p i s c t).1)
  unfolding prompt_stage
  prompt_stage-MayEnd (err e) p i s c t = fail_stage-MayEnd _ p i c _ t
  prompt_stage-MayEnd (ok pc) p i s c t = run_stage-MayEnd _ p i s c t

  build_pipeline_context-stored :
      (p : AgentPipeline) (s : StageSpec) (t : Trace)
      → stored p0 (build_pipeline_context env p s t).1 ≡ stored p0 t
  unfolding build_pipeline_context
  build_pipeline_context-stored p s t = context_loop-stored env p0 p s 0 p.status.stages _ t

  execute_stage-MayEnd :
      (p : AgentPipeline) (i : ℕ) (s : StageSpec) (c : StageStatus) (t : Trace)
      → MayEnd env
          (output_config_map_name p.meta.name s.name)
          p
          i
          c
          (stored p0 t)
          (stored p0 (execute_stage env p i s c t).1)
  unfolding execute_stage record_event stored
  execute_stage-MayEnd p i s c t =
      let started =
        Call.event normal (lit "StageStarted") (
          lit "Stage "
          ++ (env.quote s.name ++ (lit " started (agent: " ++ (s.agent_ref.name ++ lit ")"))))
        ∷ t in
      let context = build_pipeline_context env p s started in
      MayEnd-from (build_pipeline_context-stored p s started)
        (prompt_stage-MayEnd context.0 p i s c context.1)

  -- A stage that was begun ends as a stage of the pipeline before it was begun.
  begun-MayEnd :
      (p : AgentPipeline) (i : ℕ) (s : StageSpec) (c : StageStatus) (now : ℕ) {ref : Str}
      {old new : AgentPipeline}
      → MayEnd env ref (begin_stage now i s c p) i (begun now c) old new
      → StageEnd env ref p i c old new
  unfolding begin_stage begun
  begun-MayEnd p i s c now (untouched f h) = idle f h
  begun-MayEnd p i s c now (ended c' e h) =
      done c' (record { name = e.name; retries = e.retries; phase = e.phase }) _ h refl
        (set-set p.status.stages i _ c')

  recover_or_execute-StageEnd :
      (existing : Result Str) (p : AgentPipeline) (i : ℕ) (s : StageSpec) (c : StageStatus)
      (t : Trace)
      → StageEnd env
          (output_config_map_name p.meta.name s.name)
          p
          i
          c
          (stored p0 t)
          (stored p0 (recover_or_execute env existing p i s c t).1)
  unfolding recover_or_execute clock
  recover_or_execute-StageEnd (ok output) p i s c t =
      MayEnd-StageEnd (complete_stage_from_output-MayEnd p i s c output t)
  recover_or_execute-StageEnd (err _) p i s c t = begun-MayEnd p i s c (env.now t) (
      unfold begin_stage in
      execute_stage-MayEnd (begin_stage (env.now t) i s c p) i s (begun (env.now t) c) t)

  read_config_map_output-stored :
      (namespace name : Str) (t : Trace)
      → stored p0 (read_config_map_output env namespace name t).1 ≡ stored p0 t
  unfolding read_config_map_output read stored
  read_config_map_output-stored namespace name t = refl

  -- One run of a stage leaves the stored pipeline as it is, or ends the stage in it.
  pub start_stage-StageEnd :
      (p : AgentPipeline) (i : ℕ) (s : StageSpec) (c : StageStatus) (t : Trace)
      → StageEnd env
          (output_config_map_name p.meta.name s.name)
          p
          i
          c
          (stored p0 t)
          (stored p0 (start_stage env p i s c t).1)
  unfolding start_stage read_config_map_output read stored
  start_stage-StageEnd p i s c t =
      let r =
        read_config_map_output env p.meta.namespace (output_config_map_name p.meta.name s.name) t in
      recover_or_execute-StageEnd r.0 p i s c r.1
