-- ===== src/Controller/Requests.antt =====
-- The requests to agents, method by method.
use cluster.Prelude.{
  Str, ltb_ℤ, ℕ, suc, List, [], ◌∷◌, ◌≡◌, refl, ◌∙◌, inl, inr, arith, Bool-cases, Option-cases,
}
use cluster.Api.{StageSpec, StageStatus, AgentPipeline}
use cluster.Runner.Types.{Result, ok, err, RunStatus, RunResult}
use cluster.Controller.Env.{
  EventType, Env, Trace, M, read, write, write_status, store, clock, record_event,
}
use cluster.Controller.Stages.{get_effective_retry_policy}
use cluster.Controller.Handler.{
  PipelineContext, read_config_map_output, context_loop, context_step, or_return, store_output,
}
use cluster.Controller.Outcome.{Outcome, finalizer_name}
use cluster.Controller.Reconciler.{
  commit, amend, complete_pipeline, fail_pipeline, fail_stage, finish_stage, complete_stage,
  retry_stage, dispatch_result, handle_answer, fail_or_retry, begin, handle_pending,
  handle_deletion,
}
use cluster.Controller.Server.{requests}

module _ (env : Env) where
  pub commit-requests :
      (q : AgentPipeline) (prefix : Str) (type : EventType) (reason message : Str) (o : Outcome)
      (t : Trace)
      → requests (commit env q prefix type reason message o t).1 ≡ requests t
  unfolding commit write_status record_event requests
  commit-requests q prefix type reason message o t = elim (Option-cases (env.status_update t q)) [
    | inl accepted ↦ rw (accepted, commit, requests) refl
    | inr (e, refused) ↦ rw (refused, commit, requests) refl
  ]

  pub amend-requests :
      (q : AgentPipeline) (prefix : Str) (o : Outcome) (t : Trace)
      → requests (amend env q prefix o t).1 ≡ requests t
  unfolding amend write requests
  amend-requests q prefix o t = elim (Option-cases (env.update t q)) [
    | inl accepted ↦ rw (accepted, amend, requests) refl
    | inr (e, refused) ↦ rw (refused, amend, requests) refl
  ]

  pub context_step-requests :
      (p : AgentPipeline) (s : StageSpec) (i : ℕ) (c : StageStatus) (pc : PipelineContext)
      (t : Trace)
      → requests (context_step env p s i c pc t).1 ≡ requests t
  unfolding context_step requests read_config_map_output read
  context_step-requests p s i c pc t = ground arith

  pub or_return-requests :
      {A B : Type 0} (r : Result A) (rest : A → M (Result B)) (t : Trace)
      → ((a : A) → requests (rest a t).1 ≡ requests t)
      → requests (or_return r rest t).1 ≡ requests t
  or_return-requests (ok a) rest t h = h a
  or_return-requests (err e) rest t h = refl

  pub context_loop-requests :
      (p : AgentPipeline) (s : StageSpec) (i : ℕ) (cs : List StageStatus) (pc : PipelineContext)
      (t : Trace)
      → requests (context_loop env p s i cs pc t).1 ≡ requests t
  unfolding context_loop
  context_loop-requests p s i [] pc t = refl
  context_loop-requests p s i (c ∷ cs) pc t =
      let r = context_step env p s i c pc t in
      or_return-requests r.0 (context_loop env p s (suc i) cs) r.1
        (λ pc'. context_loop-requests p s (suc i) cs pc' r.1)
      ∙ context_step-requests p s i c pc t

  pub fail_stage-requests :
      (p : AgentPipeline) (i : ℕ) (c : StageStatus) (message : Str) (t : Trace)
      → requests (fail_stage env p i c message t).1 ≡ requests t
  unfolding fail_stage clock
  fail_stage-requests p i c message t = commit-requests _ _ _ _ _ _ t

  pub store_output-requests :
      (p : AgentPipeline) (name output : Str) (t : Trace)
      → requests (store_output env p name output t).1 ≡ requests t
  unfolding store_output requests store
  store_output-requests p name output t = ground arith

  pub finish_stage-requests :
      (r : Result (Str × Str)) (p : AgentPipeline) (i : ℕ) (s : StageSpec) (c : StageStatus)
      (result : RunResult) (t : Trace)
      → requests (finish_stage env r p i s c result t).1 ≡ requests t
  unfolding finish_stage clock
  finish_stage-requests (err e) p i s c result t = refl
  finish_stage-requests (ok (name, cut)) p i s c result t = commit-requests _ _ _ _ _ _ t

  pub complete_stage-requests :
      (p : AgentPipeline) (i : ℕ) (s : StageSpec) (c : StageStatus) (result : RunResult) (t : Trace)
      → requests (complete_stage env p i s c result t).1 ≡ requests t
  unfolding complete_stage
  complete_stage-requests p i s c result t =
      let r = store_output env p s.name result.output t in
      finish_stage-requests r.0 p i s c result r.1 ∙ store_output-requests p s.name result.output t

  pub dispatch_result-requests :
      (status : RunStatus) (p : AgentPipeline) (i : ℕ) (s : StageSpec) (c : StageStatus)
      (result : RunResult) (t : Trace)
      → requests (dispatch_result env status p i s c result t).1 ≡ requests t
  unfolding dispatch_result
  dispatch_result-requests RunStatus.completed p i s c result t =
      complete_stage-requests p i s c result t
  dispatch_result-requests RunStatus.unset p i s c result t = fail_stage-requests p i c _ t
  dispatch_result-requests RunStatus.failed p i s c result t = fail_stage-requests p i c _ t
  dispatch_result-requests RunStatus.timed_out p i s c result t = fail_stage-requests p i c _ t
  dispatch_result-requests (RunStatus.other x) p i s c result t = fail_stage-requests p i c _ t

  pub handle_answer-requests :
      (answer : Result RunResult) (p : AgentPipeline) (i : ℕ) (s : StageSpec) (c : StageStatus)
      (t : Trace)
      → requests (handle_answer env answer p i s c t).1 ≡ requests t
  unfolding handle_answer
  handle_answer-requests (ok result) p i s c t =
      dispatch_result-requests result.status p i s c result t
  handle_answer-requests (err e) p i s c t = fail_stage-requests p i c _ t

  pub complete_pipeline-requests :
      (p : AgentPipeline) (t : Trace) → requests (complete_pipeline env p t).1 ≡ requests t
  unfolding complete_pipeline clock
  complete_pipeline-requests p t = commit-requests _ _ _ _ _ _ t

  pub fail_pipeline-requests :
      (p : AgentPipeline) (reason : Str) (t : Trace)
      → requests (fail_pipeline env p reason t).1 ≡ requests t
  unfolding fail_pipeline clock
  fail_pipeline-requests p reason t = commit-requests _ _ _ _ _ _ t

  pub fail_or_retry-requests :
      (p : AgentPipeline) (i : ℕ) (s : StageSpec) (c : StageStatus) (t : Trace)
      → requests (fail_or_retry env p i s c t).1 ≡ requests t
  unfolding fail_or_retry retry_stage
  fail_or_retry-requests p i s c t =
      elim (Bool-cases (ltb_ℤ c.retry_count (get_effective_retry_policy p s).max_retries)) [
        | inl more ↦ rw (more, fail_or_retry) (commit-requests _ _ _ _ _ _ t)
        | inr over ↦ rw (over, fail_or_retry) (fail_pipeline-requests p _ t)
      ]

  pub begin-requests :
      (p : AgentPipeline) (stages : List StageSpec) (t : Trace)
      → requests (begin env p stages t).1 ≡ requests t
  unfolding begin clock
  begin-requests p [] t = fail_pipeline-requests p _ t
  begin-requests p (first ∷ rest) t = commit-requests _ _ _ _ _ _ t

  pub handle_pending-requests :
      (p : AgentPipeline) (t : Trace) → requests (handle_pending env p t).1 ≡ requests t
  unfolding handle_pending
  handle_pending-requests p t = elim (Bool-cases (env.contains_finalizer p.meta finalizer_name)) [
    | inl held ↦ rw (held, handle_pending) (begin-requests p p.spec.stages t)
    | inr free ↦ rw (free, handle_pending) (amend-requests _ _ _ t)
  ]

  pub handle_deletion-requests :
      (p : AgentPipeline) (t : Trace) → requests (handle_deletion env p t).1 ≡ requests t
  unfolding handle_deletion
  handle_deletion-requests p t = elim (Bool-cases (env.contains_finalizer p.meta finalizer_name)) [
    | inl held ↦ rw (held, handle_deletion) (amend-requests _ _ _ t)
    | inr free ↦ rw (free, handle_deletion) refl
  ]
