-- ===== src/Controller/Asking.antt =====
-- Which methods of the reconciler ask to be called again.
use cluster.Prelude.{Str, pos, ltb_ℤ, ℕ, Bool, true, ◌||◌, ◌≡◌, refl, inl, inr, Option-cases}
use cluster.Api.{StageSpec, StageStatus, AgentPipeline}
use cluster.Runner.Types.{Result, ok, err, RunStatus, RunResult}
use cluster.Controller.Env.{EventType, Env, Trace, write_status, invoke, clock, record_event}
use cluster.Controller.Handler.{PipelineContext, store_output, render_prompt}
use cluster.Controller.Outcome.{Outcome, done, failure, panic}
use cluster.Controller.Reconciler.{
  agent_request, commit, fail_stage, finish_stage, complete_stage, complete_stage_from_output,
  dispatch_result, handle_answer, run_stage, prompt_stage, execute_stage, recover_or_execute,
  start_stage,
}

-- controller-runtime calls a reconciler again after an error, a panic, `Requeue`, or a positive
-- `RequeueAfter`.
abbrev pub asks_again : Outcome → Bool
asks_again (done r) = r.requeue || ltb_ℤ (pos 0) r.requeue_after
asks_again (failure _) = true
asks_again panic = true

module _ (env : Env) where
  pub commit_asks :
      (q : AgentPipeline) (prefix : Str) (type : EventType) (reason message : Str) (o : Outcome)
      (t : Trace)
      → asks_again o ≡ true
      → asks_again (commit env q prefix type reason message o t).0 ≡ true
  unfolding commit write_status record_event
  commit_asks q prefix type reason message o t h = elim (Option-cases (env.status_update t q)) [
    | inl accepted ↦ rw (accepted, commit) h
    | inr (e, refused) ↦ rw (refused, commit) refl
  ]

  pub fail_stage_asks :
      (p : AgentPipeline) (i : ℕ) (c : StageStatus) (message : Str) (t : Trace)
      → asks_again (fail_stage env p i c message t).0 ≡ true
  unfolding fail_stage clock
  fail_stage_asks p i c message t = commit_asks _ _ _ _ _ _ t refl

  pub finish_stage_asks :
      (r : Result (Str × Str)) (p : AgentPipeline) (i : ℕ) (s : StageSpec) (c : StageStatus)
      (result : RunResult) (t : Trace)
      → asks_again (finish_stage env r p i s c result t).0 ≡ true
  unfolding finish_stage clock
  finish_stage_asks (err e) p i s c result t = refl
  finish_stage_asks (ok (name, cut)) p i s c result t = commit_asks _ _ _ _ _ _ t refl

  pub dispatch_result_asks :
      (status : RunStatus) (p : AgentPipeline) (i : ℕ) (s : StageSpec) (c : StageStatus)
      (result : RunResult) (t : Trace)
      → asks_again (dispatch_result env status p i s c result t).0 ≡ true
  unfolding dispatch_result complete_stage
  dispatch_result_asks RunStatus.completed p i s c result t =
      let r = store_output env p s.name result.output t in finish_stage_asks r.0 p i s c result r.1
  dispatch_result_asks RunStatus.unset p i s c result t = fail_stage_asks p i c _ t
  dispatch_result_asks RunStatus.failed p i s c result t = fail_stage_asks p i c _ t
  dispatch_result_asks RunStatus.timed_out p i s c result t = fail_stage_asks p i c _ t
  dispatch_result_asks (RunStatus.other x) p i s c result t = fail_stage_asks p i c _ t

  pub handle_answer_asks :
      (answer : Result RunResult) (p : AgentPipeline) (i : ℕ) (s : StageSpec) (c : StageStatus)
      (t : Trace)
      → asks_again (handle_answer env answer p i s c t).0 ≡ true
  unfolding handle_answer
  handle_answer_asks (err e) p i s c t = fail_stage_asks p i c _ t
  handle_answer_asks (ok result) p i s c t = dispatch_result_asks result.status p i s c result t

  pub run_stage_asks :
      (prompt : Result Str) (p : AgentPipeline) (i : ℕ) (s : StageSpec) (c : StageStatus)
      (t : Trace)
      → asks_again (run_stage env prompt p i s c t).0 ≡ true
  unfolding run_stage invoke
  run_stage_asks (err e) p i s c t = fail_stage_asks p i c _ t
  run_stage_asks (ok prompt) p i s c t =
      handle_answer_asks (env.run_agent t (agent_request p s prompt)) p i s c _

  pub prompt_stage_asks :
      (context : Result PipelineContext) (p : AgentPipeline) (i : ℕ) (s : StageSpec)
      (c : StageStatus) (t : Trace)
      → asks_again (prompt_stage env context p i s c t).0 ≡ true
  unfolding prompt_stage
  prompt_stage_asks (err e) p i s c t = fail_stage_asks p i c _ t
  prompt_stage_asks (ok pc) p i s c t = run_stage_asks (render_prompt env s pc) p i s c t

  pub recover_or_execute_asks :
      (existing : Result Str) (p : AgentPipeline) (i : ℕ) (s : StageSpec) (c : StageStatus)
      (t : Trace)
      → asks_again (recover_or_execute env existing p i s c t).0 ≡ true
  unfolding recover_or_execute clock execute_stage complete_stage_from_output
  recover_or_execute_asks (ok output) p i s c t = commit_asks _ _ _ _ _ _ t refl
  recover_or_execute_asks (err e) p i s c t = prompt_stage_asks _ _ i s _ _

  pub start_stage_asks :
      (p : AgentPipeline) (i : ℕ) (s : StageSpec) (c : StageStatus) (t : Trace)
      → asks_again (start_stage env p i s c t).0 ≡ true
  unfolding start_stage
  start_stage_asks p i s c t = recover_or_execute_asks _ p i s c _
