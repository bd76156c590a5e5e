-- ===== src/Runner/Sse.antt =====
-- `parseSSEStream`, `processEvent` and `extractText` of
-- agentpipeline-operator/internal/runner/a2a_runner.go, with the types of the stream's events.
-- `json.Unmarshal` is a parameter: `none` is its error.
use cluster.Prelude.{
  Str, lit, str_eq, is_empty, decimal_ℤ, ℤ, ℕ, suc, Bool, true, false, not, ◌&&◌, ◌||◌, Option,
  none, some, List, [], ◌∷◌, ◌++◌, if◌then◌else◌,
}
use cluster.Runner.Types.{Result, ok, err, RunStatus, RunResult}
use cluster.Runner.Strings.{has_prefix, trim_prefix, trim_space, join_lines}
use cluster.Runner.Scanner.{Scan, over, line}

pub record TextPart : Type 0 where
  pub kind : Str
  pub text : Str

pub record Message : Type 0 where
  pub role : Str
  pub parts : List TextPart

pub record SseEvent : Type 0 where
  pub event : Str
  pub contents : Str

pub record RpcError : Type 0 where
  pub code : ℤ
  pub message : Str

pub record Artifact : Type 0 where
  pub artifact_id : Str
  pub parts : List TextPart

pub record TaskStatus : Type 0 where
  pub state : Str
  pub message : Option Message

pub record TaskResult : Type 0 where
  pub id : Str
  pub kind : Str
  pub task_id : Str
  pub status : TaskStatus
  pub artifact : Option Artifact

pub record SseResponse : Type 0 where
  pub jsonrpc : Str
  pub id : Str
  pub result : Option TaskResult
  pub error : Option RpcError

-- The texts of the parts, without the empty ones.
unfoldable pub part_texts : List TextPart → List Str
part_texts [] = []
part_texts (p ∷ ps) = let rest = part_texts ps in if is_empty p.text then rest else p.text ∷ rest

unfoldable pub extract_text : TaskResult → Str
unfolding part_texts join_lines
extract_text task = elim task.status.message [
  | none ↦ []
  | some m ↦ join_lines (part_texts m.parts)
]

-- The variables of `parseSSEStream`.
pub record Stream : Type 0 where
  pub current : SseEvent
  pub result : RunResult
  pub artifacts : List Str

abbrev pub no_event : SseEvent
no_event = record { event = []; contents = [] }

abbrev pub no_result : RunResult
no_result = record {
  task_id = [];
  output = [];
  status = RunStatus.unset;
  duration = ℤ.pos 0;
  error = [];
}

abbrev pub initial : Stream
initial = record { current = no_event; result = no_result; artifacts = [] }

unfoldable pub take_task_id : TaskResult → RunResult → RunResult
take_task_id task r =
    if not (is_empty task.task_id)
    then record r { task_id = task.task_id }
    else if not (is_empty task.id)
    then record r { task_id = task.id }
    else r

-- The texts of an artifact event.
unfoldable pub artifact_texts : Option Artifact → List Str
unfolding part_texts
artifact_texts none = []
artifact_texts (some a) = part_texts a.parts

-- `switch resp.Result.Status.State`
unfoldable pub take_state : TaskResult → RunResult → RunResult
unfolding extract_text
take_state task r =
    if str_eq task.status.state (lit "completed")
    then record r { status = RunStatus.completed; output = extract_text task }
    else if str_eq task.status.state (lit "failed") || str_eq task.status.state (lit "canceled")
    then record r { status = RunStatus.failed; error = extract_text task }
    else r

unfoldable pub take_task : Option TaskResult → Stream → Stream
unfolding take_task_id artifact_texts take_state
take_task none st = st
take_task (some task) st = record st {
  result = take_state task (take_task_id task st.result);
  artifacts = st.artifacts ++ artifact_texts task.artifact;
}

unfoldable pub take_response : Option SseResponse → Stream → Stream
unfolding take_task
take_response none st = st
take_response (some resp) st = elim resp.error [
  | some e ↦ record st {
    result = record st.result {
      status = RunStatus.failed;
      error = lit "A2A RPC error " ++ (decimal_ℤ e.code ++ (lit ": " ++ e.message));
    };
  }
  | none ↦ take_task resp.result st
]

-- `result.Status == RunStatusCompleted || result.Status == RunStatusFailed`
abbrev pub is_terminal : RunStatus → Bool
is_terminal RunStatus.completed = true
is_terminal RunStatus.failed = true
is_terminal _ = false

-- The result at a terminal event: the texts of the artifacts stand in for an empty output.
unfoldable pub deliver : Stream → RunResult
deliver st = elim st.artifacts [
  | [] ↦ st.result
  | x ∷ r ↦
      if is_empty st.result.output
      then record st.result { output = join_lines (x ∷ r) }
      else st.result
]

-- The result at the end of the stream.
unfoldable pub close_stream : RunResult → RunResult
close_stream r = elim r.status [
  | RunStatus.unset ↦ record r {
    status = RunStatus.failed;
    error = lit "SSE stream ended without a terminal status";
  }
  | _ ↦ r
]

-- A line that is not empty.
unfoldable pub take_line : Str → SseEvent → SseEvent
unfolding has_prefix trim_prefix trim_space
take_line l e =
    if has_prefix l (lit "event:")
    then record e { event = trim_space (trim_prefix l (lit "event:")) }
    else if has_prefix l (lit "data:")
    then record e { contents = trim_space (trim_prefix l (lit "data:")) }
    else e

-- `cancelled n` is `ctx.Err()` at the check of line `n`.
module _ (unmarshal : Str → Option SseResponse) (cancelled : ℕ → Option Str) where
  -- processEvent; it returns no error.
  unfoldable pub process_event : Stream → Stream
  unfolding take_response
  process_event st = take_response (unmarshal st.current.contents) st

  -- At an empty line, the end of an event.
  unfoldable pub end_event : Stream → Stream
  unfolding process_event
  end_event st = if is_empty st.current.contents then st else process_event st

  unfoldable pub parse_lines : ℕ → Scan → Stream → Result RunResult
  parse_lines n (over (some e)) st = err (lit "reading SSE stream: " ++ e)
  parse_lines n (over none) st = ok (close_stream st.result)
  parse_lines n (line l rest) st =
      let ended = end_event st in
      let fresh = parse_lines (suc n) rest (record ended { current = no_event }) in
      let more = parse_lines (suc n) rest (record st { current = take_line l st.current }) in
      elim (cancelled n) [
        | some e ↦ err e
        | none ↦
            if is_empty l
            then if not (is_empty st.current.contents) && is_terminal ended.result.status
              then ok (deliver ended)
              else fresh
            else more
      ]

  unfoldable pub parse_sse_stream : Scan → Result RunResult
  unfolding parse_lines
  parse_sse_stream body = parse_lines 0 body initial
