-- ===== src/Controller/Dispatch.antt =====
-- The reconciler behind an answer of the A2A runner.
use cluster.Prelude.{Str, lit, ℕ, true, some, ◌++◌, ◌≡◌, refl, ap, ◌⊎◌, inl, inr}
use cluster.Api.{StageSpec, StageStatus, AgentPipeline}
use cluster.Runner.Types.{Result, ok, err, RunStatus, RunRequest, RunResult}
use cluster.Runner.Sse.{is_terminal}
use cluster.Runner.A2a.{Http, A2aRunner, run_agent, timeout_of}
use cluster.Runner.Answers.{Answered, failed, timed_out, ended_with, run_agent-Answered}
use cluster.Controller.Env.{Env, Trace}
use cluster.Controller.Outcome.{Outcome}
use cluster.Controller.Reconciler.{
  fail_stage, complete_stage, dispatch_result, handle_answer, agent_request,
}

-- What a pass does with the answer of an agent: the stage is completed with the result, or it fails,
-- with the error of the call, with that of the result, or with a timeout where the context is over.
pub data Dispatched (http : Http) (env : Env) (p : AgentPipeline) (i : ℕ) (s : StageSpec)
    (c : StageStatus) (req : RunRequest) (t : Trace)
    : Result RunResult → Outcome × Trace → Type 0 where
  not_invoked :
      (e : Str)
      → Dispatched http env p i s c req t
          (err e)
          (fail_stage env p i c (lit "invoking agent: " ++ e) t)
  has_completed :
      {r : RunResult} {o : Outcome × Trace}
      → r.status ≡ RunStatus.completed
      → o ≡ complete_stage env p i s c r t
      → Dispatched http env p i s c req t (ok r) o
  has_failed :
      {r : RunResult} {o : Outcome × Trace}
      → r.status ≡ RunStatus.failed
      → o ≡ fail_stage env p i c r.error t
      → Dispatched http env p i s c req t (ok r) o
  has_timed_out :
      {r : RunResult} {o : Outcome × Trace} (e : Str)
      → r.status ≡ RunStatus.timed_out
      → (http.ctx_after_send (timeout_of req) ≡ some e)
        ⊎ (http.ctx_after_stream (timeout_of req) ≡ some e)
      → o ≡ fail_stage env p i c (lit "agent execution timed out") t
      → Dispatched http env p i s c req t (ok r) o

is_terminal-cases :
    (status : RunStatus)
    → is_terminal status ≡ true
    → (status ≡ RunStatus.completed) ⊎ (status ≡ RunStatus.failed)
is_terminal-cases RunStatus.completed h = inl refl
is_terminal-cases RunStatus.failed h = inr refl
is_terminal-cases RunStatus.unset h = cc
is_terminal-cases RunStatus.timed_out h = cc
is_terminal-cases (RunStatus.other x) h = cc

module _ (http : Http) (env : Env) (p : AgentPipeline) (i : ℕ) (s : StageSpec) (c : StageStatus)
    (t : Trace) where
  dispatch-Answered :
      (req : RunRequest) (answer : Result RunResult)
      → Answered http (timeout_of req) answer
      → Dispatched http env p i s c req t answer (handle_answer env answer p i s c t)
  unfolding handle_answer dispatch_result
  dispatch-Answered req _ (failed e) = not_invoked e
  dispatch-Answered req _ (timed_out {r} e over h) =
      has_timed_out e h over (ap (λ x. dispatch_result env x p i s c r t) h)
  dispatch-Answered req _ (ended_with {r} h) = elim (is_terminal-cases r.status h) [
    | inl e ↦ has_completed e (ap (λ x. dispatch_result env x p i s c r t) e)
    | inr e ↦ has_failed e (ap (λ x. dispatch_result env x p i s c r t) e)
  ]

  -- Whatever the A2A runner answers to the request for a stage, the reconciler completes the stage
  -- with a Completed result, or fails it with the error of the call, the error of a Failed result
  -- or a timeout, the last only if the context of the request is over: it never meets an
  -- unexpected status.
  pub handle_answer-Dispatched :
      (runner : A2aRunner) (prompt : Str)
      → let req = agent_request p s prompt in
        Dispatched http env p i s c req t
          (run_agent http runner req)
          (handle_answer env (run_agent http runner req) p i s c t)
  handle_answer-Dispatched runner prompt =
      let req = agent_request p s prompt in
      dispatch-Answered req (run_agent http runner req) (run_agent-Answered http runner req)
