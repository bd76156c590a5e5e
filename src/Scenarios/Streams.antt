-- ===== src/Scenarios/Streams.antt =====
-- A stream with an artifact, a heartbeat and a completed task without a message.
use cluster.Prelude.{
  pos, decimal_ℤ, Str, lit, str_eq, Option, none, some, List, [], ◌∷◌, ◌++◌, ◌≡◌, refl, arith,
  if◌then◌else◌,
}
use cluster.Runner.Types.{ok, RunStatus}
use cluster.Runner.Scanner.{scan}
use cluster.Runner.Sse.{RpcError, Artifact, TaskResult, SseResponse, no_result, parse_sse_stream}
use cluster.Runner.Frames.{frames, Sendable}
use cluster.Runner.Texts.{message_text, texts_in, all_texts, or_texts}
use cluster.Runner.Tasks.{Working, no_payload, ignored, at_work, id_of, last_id}
use cluster.Runner.Results.{parse_sse_stream-Working, parse_sse_stream-error}

abbrev report : Artifact
report = record {
  artifact_id = lit "1";
  parts =
      record { kind = lit "text"; text = lit "one" }
      ∷ record { kind = lit "text"; text = lit "two" }
      ∷ [];
}

abbrev task_in : Str → Option Artifact → TaskResult
task_in state artifact = record {
  id = lit "t";
  kind = lit "task";
  task_id = [];
  status = record { state = state; message = none };
  artifact = artifact;
}

abbrev working : TaskResult
working = task_in (lit "working") (some report)

abbrev finished : TaskResult
finished = task_in (lit "completed") none

abbrev answer_of : TaskResult → SseResponse
answer_of task = record { jsonrpc = lit "2.0"; id = lit "1"; result = some task; error = none }

-- `{w}` is the task at work, `{h}` no response, anything else the completed task.
abbrev decode : Str → Option SseResponse
decode s =
    if str_eq s (lit "{h}")
    then none
    else some (answer_of (if str_eq s (lit "{w}") then working else finished))

abbrev before : List Str
before = lit "w" ∷ lit "h" ∷ []

before-Working : Working decode before (working ∷ [])
unfolding lit str_eq
before-Working =
    at_work {d = lit "w"} (answer_of working) working refl refl refl refl
      (ignored {d = lit "h"} refl no_payload)

all-Sendable : Sendable (before ++ (lit "c" ∷ lit "w" ∷ []))
unfolding lit
all-Sendable = (
  ((ground arith, tt), omega arith),
  (
    ((ground arith, tt), omega arith),
    (((ground arith, tt), omega arith), (((ground arith, tt), omega arith), tt)),
  ),
)

parse_sse_stream-Working_example :
    parse_sse_stream decode (λ n. none) (scan none (frames (before ++ (lit "c" ∷ lit "w" ∷ []))))
    ≡ ok (record no_result {
      task_id = id_of finished (last_id (working ∷ []) []);
      status = RunStatus.completed;
      output = or_texts (message_text finished) (all_texts (working ∷ []) ++ texts_in finished);
    })
unfolding lit str_eq
parse_sse_stream-Working_example =
    parse_sse_stream-Working decode (λ n. none) before (working ∷ []) (lit "c") (lit "w" ∷ [])
      (answer_of finished) finished (λ n. refl) all-Sendable before-Working refl refl refl refl

-- The texts of the artifact are the output.
report_is_output :
    or_texts (message_text finished) (all_texts (working ∷ []) ++ texts_in finished)
    ≡ lit "one" ++ (b'\n' ∷ lit "two")
unfolding lit
report_is_output = refl

abbrev out_of_memory : RpcError
out_of_memory = record { code = pos 7; message = lit "out of memory" }

abbrev failing : SseResponse
failing = record (answer_of working) { error = some out_of_memory }

-- `{c}` is an error.
abbrev decode_error : Str → Option SseResponse
decode_error s = if str_eq s (lit "{c}") then some failing else decode s

parse_sse_stream-error_example :
    parse_sse_stream decode_error
      (λ n. none)
      (scan none (frames (before ++ (lit "c" ∷ lit "w" ∷ []))))
    ≡ ok (record no_result {
      task_id = last_id (working ∷ []) [];
      status = RunStatus.failed;
      error =
          lit "A2A RPC error "
          ++ (decimal_ℤ out_of_memory.code ++ (lit ": " ++ out_of_memory.message));
      output = or_texts [] (all_texts (working ∷ []));
    })
unfolding lit str_eq
parse_sse_stream-error_example =
    parse_sse_stream-error decode_error (λ n. none) before (working ∷ []) (lit "c") (lit "w" ∷ [])
      failing out_of_memory (λ n. refl) all-Sendable
      (at_work {d = lit "w"} (answer_of working) working refl refl refl refl
        (ignored {d = lit "h"} refl no_payload))
      refl refl
