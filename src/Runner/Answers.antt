-- ===== src/Runner/Answers.antt =====
-- What `RunAgent` of the A2A runner may return.
use cluster.Prelude.{
  Str, lit, ◌==◌, true, Option, some, ◌≡◌, refl, ◌⊎◌, inl, inr, Bool-cases, Option-cases,
}
use cluster.Api.{Duration}
use cluster.Runner.Types.{Result, ok, err, RunStatus, RunRequest, RunResult}
use cluster.Runner.Scanner.{Scan, scan}
use cluster.Runner.Sse.{is_terminal}
use cluster.Runner.A2a.{
  A2aRunner, Http, a2a_headers, HttpResponse, timeout_of, timed_out_or, read_stream, read_response,
  send_task, run_agent, agent_url,
}
use cluster.Runner.Stream.{Parsed, answered, parse_sse_stream-Parsed}

module _ (http : Http) where
  -- What `RunAgent` may return: an error where the context is not over, or a result with the
  -- status Completed, Failed or TimedOut, the last where the context is over.
  pub data Answered (timeout : Option Duration) : Result RunResult → Type 0 where
    failed : (e : Str) → Answered timeout (err e)
    timed_out :
        {r : RunResult} (e : Str)
        → (http.ctx_after_send timeout ≡ some e) ⊎ (http.ctx_after_stream timeout ≡ some e)
        → r.status ≡ RunStatus.timed_out
        → Answered timeout (ok r)
    ended_with : {r : RunResult} → is_terminal r.status ≡ true → Answered timeout (ok r)

  read_stream-Answered :
      (body : Scan) (timeout : Option Duration) (r : Result RunResult)
      → Parsed http.unmarshal (http.ctx_at_line timeout) body r
      → Answered timeout (read_stream http timeout r)
  unfolding read_stream timed_out_or
  read_stream-Answered body timeout (ok r) (answered h) = ended_with h
  read_stream-Answered body timeout (err e) _ =
      elim (Option-cases (http.ctx_after_stream timeout)) [
        | inl h ↦ rw h (failed _)
        | inr (x, h) ↦ rw h (timed_out x (inr h) refl)
      ]

  read_response-Answered :
      (timeout : Option Duration) (url : Str) (r : Result HttpResponse)
      → Answered timeout (read_response http timeout url r)
  unfolding read_response timed_out_or
  read_response-Answered timeout url (err e) = elim (Option-cases (http.ctx_after_send timeout)) [
    | inl h ↦ rw h (failed _)
    | inr (x, h) ↦ rw h (timed_out x (inl h) refl)
  ]
  read_response-Answered timeout url (ok resp) = elim (Bool-cases (resp.status_code == 200)) [
    | inr bad ↦ rw bad (ended_with refl)
    | inl good ↦ rw good (
        read_stream-Answered _ timeout _ (
          parse_sse_stream-Parsed http.unmarshal (http.ctx_at_line timeout)
            (scan resp.failed resp.body)))
  ]

  send_task-Answered :
      (r : A2aRunner) (req : RunRequest) (body : Result Str)
      → Answered (timeout_of req) (send_task http r req body)
  unfolding send_task
  send_task-Answered r req (err e) = failed _
  send_task-Answered r req (ok body) =
      elim (Option-cases (http.new_request (lit "POST") (agent_url r req))) [
        | inr (e, h) ↦ rw (h, send_task) (failed _)
        | inl h ↦
            rw (h, send_task)
              (read_response-Answered (timeout_of req) (agent_url r req) (
                http.send (timeout_of req) (record {
                  method = lit "POST";
                  url = agent_url r req;
                  headers = a2a_headers;
                  body = body;
                })))
      ]

  -- `RunAgent` returns an error, or a result with the status Completed or Failed, or one with the
  -- status TimedOut, and that only if the context of the request is over after the call or after
  -- the stream.
  pub run_agent-Answered :
      (r : A2aRunner) (req : RunRequest) → Answered (timeout_of req) (run_agent http r req)
  unfolding run_agent
  run_agent-Answered r req = send_task-Answered r req _
