-- ===== src/Runner/A2a.antt =====
-- The A2A runner of agentpipeline-operator/internal/runner/a2a_runner.go.
-- HTTP, JSON, the context and the clock are the record `Http`: what they answer in one call of the
-- runner.
use cluster.Prelude.{
  Str, lit, is_empty, decimal, ℤ, ltb_ℤ, ℕ, ◌==◌, not, Option, none, some, List, [], ◌∷◌, ◌++◌,
  if◌then◌else◌, take,
}
use cluster.Api.{Duration}
use cluster.Runner.Types.{Result, ok, err, RunStatus, RunRequest, RunResult}
use cluster.Runner.Strings.{trim_right_slashes}
use cluster.Runner.Scanner.{scan}
use cluster.Runner.Sse.{Message, SseResponse, parse_sse_stream}

pub record TaskParams : Type 0 where
  pub id : Str
  pub message : Message

pub record TaskRequest : Type 0 where
  pub jsonrpc : Str
  pub id : Str
  pub method : Str
  pub params : TaskParams

pub record A2aRunner : Type 0 where
  pub base_url : Str
  pub user_id : Str

abbrev pub default_base_url : Str
default_base_url = lit "http://kagent-controller.kagent.svc.cluster.local:8083"

abbrev pub default_user_id : Str
default_user_id = lit "admin@kagent.dev"

abbrev pub or_default : Str → Str → Str
or_default s default = if is_empty s then default else s

unfoldable pub new_a2a_runner : Str → Str → A2aRunner
unfolding trim_right_slashes
new_a2a_runner base_url user_id = record {
  base_url = trim_right_slashes (or_default base_url default_base_url);
  user_id = or_default user_id default_user_id;
}

-- http.Request
pub record HttpRequest : Type 0 where
  pub method : Str
  pub url : Str
  pub headers : List (Str × Str)
  pub body : Str

-- http.Response: the bytes of the body, and the error in which reading it ends.
pub record HttpResponse : Type 0 where
  pub status_code : ℕ
  pub body : Str
  pub failed : Option Str

pub record Http : Type 0 where
  pub marshal : TaskRequest → Result Str
  pub unmarshal : Str → Option SseResponse
  -- http.NewRequestWithContext on a method and a URL
  pub new_request : Str → Str → Option Str
  -- http.Client.Do, under a context with that timeout, if any
  pub send : Option Duration → HttpRequest → Result HttpResponse
  -- ctx.Err() after `Do`, at each line of the stream, and after the stream
  pub ctx_after_send : Option Duration → Option Str
  pub ctx_at_line : Option Duration → ℕ → Option Str
  pub ctx_after_stream : Option Duration → Option Str
  -- time.Now().UnixNano(), and time.Since(start) at the return
  pub unix_nano : ℕ
  pub elapsed : Duration

abbrev pub status_ok : ℕ
status_ok = 200

-- `if req.Timeout > 0`
abbrev pub timeout_of : RunRequest → Option Duration
timeout_of req = if ltb_ℤ (ℤ.pos 0) req.timeout then some req.timeout else none

unfoldable pub agent_url : A2aRunner → RunRequest → Str
agent_url r req = r.base_url ++ (lit "/api/a2a/" ++ (req.namespace ++ (lit "/" ++ req.agent_name)))

unfoldable pub new_task_id : RunRequest → ℕ → Str
new_task_id req nano = req.namespace ++ (lit "-" ++ (req.agent_name ++ (lit "-" ++ decimal nano)))

unfoldable pub task_request : RunRequest → Str → TaskRequest
task_request req id = record {
  jsonrpc = lit "2.0";
  id = id;
  method = lit "message/stream";
  params = record {
    id = id;
    message = record {
      role = lit "user";
      parts = record { kind = lit "text"; text = req.prompt } ∷ [];
    };
  };
}

abbrev pub a2a_headers : List (Str × Str)
a2a_headers =
    (lit "Content-Type", lit "application/json") ∷ (lit "Accept", lit "text/event-stream") ∷ []

-- A result with a status, an error text and nothing else.
abbrev pub ended : RunStatus → Str → Duration → RunResult
ended status error duration = record {
  task_id = [];
  output = [];
  status = status;
  duration = duration;
  error = error;
}

module _ (http : Http) where
  -- The error of a call under a context: a timeout if the context is over.
  unfoldable pub timed_out_or : Option Str → Str → Str → Result RunResult
  timed_out_or none text failure = err failure
  timed_out_or (some _) text failure = ok (ended RunStatus.timed_out text http.elapsed)

  -- `RunAgent` behind `parseSSEStream`.
  unfoldable pub read_stream : Option Duration → Result RunResult → Result RunResult
  unfolding timed_out_or
  read_stream timeout (ok result) = ok (record result { duration = http.elapsed })
  read_stream timeout (err e) =
      timed_out_or (http.ctx_after_stream timeout)
        (lit "agent invocation timed out during SSE stream") (lit "parsing SSE stream: " ++ e)

  -- `RunAgent` behind `Do`.
  unfoldable pub read_response : Option Duration → Str → Result HttpResponse → Result RunResult
  unfolding read_stream scan parse_sse_stream
  read_response timeout url (err e) =
      timed_out_or (http.ctx_after_send timeout) (lit "agent invocation timed out")
        (lit "sending A2A request to " ++ (url ++ (lit ": " ++ e)))
  read_response timeout url (ok resp) =
      if not (resp.status_code == status_ok)
      then ok (
          ended RunStatus.failed
            (lit "A2A returned HTTP "
              ++ (decimal resp.status_code ++ (lit ": " ++ take 1024 resp.body)))
            http.elapsed)
      else read_stream timeout
          (parse_sse_stream http.unmarshal (http.ctx_at_line timeout) (scan resp.failed resp.body))

  -- `RunAgent` behind `json.Marshal`.
  unfoldable pub send_task : A2aRunner → RunRequest → Result Str → Result RunResult
  unfolding read_response agent_url
  send_task r req (err e) = err (lit "marshalling A2A request: " ++ e)
  send_task r req (ok body) =
      let url = agent_url r req in
      elim (http.new_request (lit "POST") url) [
        | some e ↦ err (lit "creating HTTP request: " ++ e)
        | none ↦ read_response (timeout_of req) url (
            http.send (timeout_of req)
              (record { method = lit "POST"; url = url; headers = a2a_headers; body = body }))
      ]

  unfoldable pub run_agent : A2aRunner → RunRequest → Result RunResult
  unfolding send_task new_task_id task_request
  run_agent r req =
      send_task r req (http.marshal (task_request req (new_task_id req http.unix_nano)))

  -- The error, if any; the status code of the answer is not looked at.
  unfoldable pub check_health : A2aRunner → Option Str
  check_health r =
      let url = r.base_url ++ lit "/api/a2a" in
      elim (http.new_request (lit "GET") url) [
        | some e ↦ some (lit "creating health check request: " ++ e)
        | none ↦
            elim (http.send none
              (record { method = lit "GET"; url = url; headers = []; body = [] })) [
                | err e ↦
                    some (lit "kagent A2A endpoint unreachable at " ++ (url ++ (lit ": " ++ e)))
                | ok _ ↦ none
              ]
      ]
