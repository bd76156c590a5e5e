-- ===== src/Runner/Results.antt =====
-- The result of a stream whose task is completed, and of one that ends in an error.
use cluster.Prelude.{
  decimal_ℤ, Str, lit, str_eq_refl, is_empty, ℕ, Option, none, some, List, [], ◌∷◌, ◌++◌, ◌≡◌, refl,
  ap, ◌∙◌, inl, inr, Bool-cases, if◌then◌else◌,
}
use cluster.Runner.Types.{ok, RunStatus, RunResult}
use cluster.Runner.Scanner.{scan}
use cluster.Runner.Sse.{
  RpcError, SseEvent, no_result, TaskResult, SseResponse, Stream, initial, extract_text,
  take_task_id, artifact_texts, take_state, take_task, take_response, is_terminal, deliver,
  parse_sse_stream,
}
use cluster.Runner.Frames.{object, frames, Sendable, answer}
use cluster.Runner.Framing.{parse_sse_stream-frames}
use cluster.Runner.Texts.{
  message_text, texts_in, all_texts, or_texts, join_lines-lines_of, extract_text-message_text,
  artifact_texts-texts_in,
}
use cluster.Runner.Tasks.{Working, id_of, last_id, behind, take_task_id-id_of, answer-Working}

or_texts-nil : (output : Str) → output ≡ or_texts output []
or_texts-nil [] = refl
or_texts-nil (c ∷ r) = refl

deliver-or_texts :
    (e : SseEvent) (r : RunResult) (texts : List Str)
    → deliver (record { current = e; result = r; artifacts = texts })
      ≡ record r { output = or_texts r.output texts }
unfolding deliver
deliver-or_texts e r [] = ap (λ o. record r { output = o }) (or_texts-nil r.output)
deliver-or_texts e r (x ∷ texts) = elim (Bool-cases (is_empty r.output)) [
  | inl h ↦ rw (h, deliver) (ap (λ o. record r { output = o }) (join_lines-lines_of (x ∷ texts)))
  | inr h ↦ rw (h, deliver) refl
]

take_state-completed :
    (t : TaskResult) (r : RunResult)
    → t.status.state ≡ lit "completed"
    → take_state t r ≡ record r { status = RunStatus.completed; output = message_text t }
unfolding take_state
take_state-completed t r h =
    let same : take_state t r ≡ record r { status = RunStatus.completed; output = extract_text t } =
      rw (h, str_eq_refl (lit "completed"), take_state) refl in
    same
    ∙ ap (λ o. record r { status = RunStatus.completed; output = o }) (extract_text-message_text t)

-- The stream behind a task that is completed.
abbrev at_end : TaskResult → Stream → Stream
at_end t st = record st {
  result = record st.result {
    task_id = id_of t st.result.task_id;
    status = RunStatus.completed;
    output = message_text t;
  };
  artifacts = st.artifacts ++ texts_in t;
}

take_response-at_end :
    (resp : SseResponse) (t : TaskResult) (st : Stream)
    → resp.error ≡ none
    → resp.result ≡ some t
    → t.status.state ≡ lit "completed"
    → take_response (some resp) st ≡ at_end t st
unfolding take_response take_task
take_response-at_end resp t st e r h =
    rw (e, r, take_response)
      (ap (λ x. record st { result = x; artifacts = st.artifacts ++ artifact_texts t.artifact })
          (take_state-completed t (take_task_id t st.result) h
            ∙ ap
                (λ (x : RunResult). record x {
                  status = RunStatus.completed;
                  output = message_text t;
                })
                (take_task_id-id_of t st.result))
        ∙ ap (λ texts. record (at_end t st) { artifacts = st.artifacts ++ texts })
            (artifact_texts-texts_in t))

module _ (unmarshal : Str → Option SseResponse) where
  answer-at_end :
      (d : Str) (more : List Str) (st : Stream) (resp : SseResponse) (task : TaskResult)
      → unmarshal (object d) ≡ some resp
      → resp.error ≡ none
      → resp.result ≡ some task
      → task.status.state ≡ lit "completed"
      → answer unmarshal (d ∷ more) st ≡ record st.result {
        task_id = id_of task st.result.task_id;
        status = RunStatus.completed;
        output = or_texts (message_text task) (st.artifacts ++ texts_in task);
      }
  answer-at_end d more st resp task there e r completed =
      let next = at_end task st in
      ap
        (λ (n : Stream). if is_terminal n.result.status then deliver n else answer unmarshal more n)
        (ap (λ x. take_response x st) there ∙ take_response-at_end resp task st e r completed)
      ∙ deliver-or_texts next.current next.result next.artifacts

-- Where the payloads of the events before the first final one are tasks at work or cannot be decoded,
-- and that one is a completed task, the stream, sent as bytes under a context that is not over, is
-- parsed to a Completed result: its output is the text of the last task's message, which is the texts
-- of its parts line by line, or, if that is empty, the texts of all artifacts so far, in order, line
-- by line, empty texts left out in both; its id is the last that a task has; what follows counts for
-- nothing.
pub parse_sse_stream-Working :
    (unmarshal : Str → Option SseResponse) (cancelled : ℕ → Option Str) (ds : List Str)
    (ts : List TaskResult) (d : Str) (more : List Str) (resp : SseResponse) (task : TaskResult)
    → ((n : ℕ) → cancelled n ≡ none)
    → Sendable (ds ++ (d ∷ more))
    → Working unmarshal ds ts
    → unmarshal (object d) ≡ some resp
    → resp.error ≡ none
    → resp.result ≡ some task
    → task.status.state ≡ lit "completed"
    → parse_sse_stream unmarshal cancelled (scan none (frames (ds ++ (d ∷ more))))
      ≡ ok (record no_result {
        task_id = id_of task (last_id ts []);
        status = RunStatus.completed;
        output = or_texts (message_text task) (all_texts ts ++ texts_in task);
      })
parse_sse_stream-Working unmarshal cancelled ds ts d more resp task live sendable working there e r
      completed =
    parse_sse_stream-frames unmarshal cancelled (ds ++ (d ∷ more)) live sendable
    ∙ ap ok (
        answer-Working unmarshal initial (d ∷ more) working refl
        ∙ answer-at_end unmarshal d more (behind ts initial) resp task there e r completed)

take_response-error :
    (resp : SseResponse) (e : RpcError) (st : Stream)
    → resp.error ≡ some e
    → take_response (some resp) st ≡ record st {
      result = record st.result {
        status = RunStatus.failed;
        error = lit "A2A RPC error " ++ (decimal_ℤ e.code ++ (lit ": " ++ e.message));
      };
    }
unfolding take_response
take_response-error resp e st h = rw (h, take_response) refl

-- Where such events come before a JSON-RPC error, the stream is parsed to a Failed result with the
-- code and the message of that error; the texts of the artifacts so far are its output, and what
-- follows counts for nothing.
pub parse_sse_stream-error :
    (unmarshal : Str → Option SseResponse) (cancelled : ℕ → Option Str) (ds : List Str)
    (ts : List TaskResult) (d : Str) (more : List Str) (resp : SseResponse) (e : RpcError)
    → ((n : ℕ) → cancelled n ≡ none)
    → Sendable (ds ++ (d ∷ more))
    → Working unmarshal ds ts
    → unmarshal (object d) ≡ some resp
    → resp.error ≡ some e
    → parse_sse_stream unmarshal cancelled (scan none (frames (ds ++ (d ∷ more))))
      ≡ ok (record no_result {
        task_id = last_id ts [];
        status = RunStatus.failed;
        error = lit "A2A RPC error " ++ (decimal_ℤ e.code ++ (lit ": " ++ e.message));
        output = or_texts [] (all_texts ts);
      })
parse_sse_stream-error unmarshal cancelled ds ts d more resp e live sendable working there rpc =
    let st = behind ts initial in
    let next : Stream = record st {
      result = record st.result {
        status = RunStatus.failed;
        error = lit "A2A RPC error " ++ (decimal_ℤ e.code ++ (lit ": " ++ e.message));
      };
    } in
    parse_sse_stream-frames unmarshal cancelled (ds ++ (d ∷ more)) live sendable
    ∙ ap ok (
        answer-Working unmarshal initial (d ∷ more) working refl
        ∙ ap
            (λ (n : Stream).
              if is_terminal n.result.status then deliver n else answer unmarshal more n)
            (ap (λ x. take_response x st) there ∙ take_response-error resp e st rpc)
        ∙ deliver-or_texts next.current next.result next.artifacts)
