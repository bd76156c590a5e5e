-- ===== src/Runner/Tasks.antt =====
-- A stream behind events of tasks that are at work.
use cluster.Prelude.{
  Str, lit, str_eq, is_empty, Bool, false, not, ◌||◌, Option, none, some, List, [], ◌∷◌, ◌++◌,
  append_assoc, append-nil, ◌≡◌, refl, sym, ap, ◌∙◌, arith, if◌then◌else◌,
}
use cluster.Runner.Types.{RunStatus, RunResult}
use cluster.Runner.Sse.{
  TaskResult, SseResponse, Stream, take_task_id, artifact_texts, take_state, take_task,
  take_response, is_terminal, deliver,
}
use cluster.Runner.Texts.{texts_in, all_texts, artifact_texts-texts_in}
use cluster.Runner.Frames.{object, answer}

-- A state that ends the stream.
abbrev pub is_final : Str → Bool
is_final state =
    str_eq state (lit "completed") || (str_eq state (lit "failed") || str_eq state (lit "canceled"))

-- The payloads are answered by the tasks `ts`, at work; a payload that cannot be decoded by none.
pub data Working (unmarshal : Str → Option SseResponse) : List Str → List TaskResult → Type 0 where
  no_payload : Working unmarshal [] []
  ignored :
      {d : Str} {ds : List Str} {ts : List TaskResult}
      → unmarshal (object d) ≡ none
      → Working unmarshal ds ts
      → Working unmarshal (d ∷ ds) ts
  at_work :
      {d : Str} {ds : List Str} {ts : List TaskResult} (resp : SseResponse) (task : TaskResult)
      → unmarshal (object d) ≡ some resp
      → resp.error ≡ none
      → resp.result ≡ some task
      → is_final task.status.state ≡ false
      → Working unmarshal ds ts
      → Working unmarshal (d ∷ ds) (task ∷ ts)

abbrev pub id_of : TaskResult → Str → Str
id_of t before =
    if not (is_empty t.task_id) then t.task_id else if not (is_empty t.id) then t.id else before

-- The last id that a task has.
abbrev pub last_id : List TaskResult → Str → Str
last_id [] before = before
last_id (t ∷ ts) before = last_id ts (id_of t before)

-- A stream behind tasks at work.
abbrev pub behind : List TaskResult → Stream → Stream
behind ts st = record st {
  result = record st.result { task_id = last_id ts st.result.task_id };
  artifacts = st.artifacts ++ all_texts ts;
}

pub take_task_id-id_of :
    (t : TaskResult) (r : RunResult) → take_task_id t r ≡ record r { task_id = id_of t r.task_id }
unfolding take_task_id
take_task_id-id_of t r = ground arith

take_state-is_final :
    (t : TaskResult) (r : RunResult) → is_final t.status.state ≡ false → take_state t r ≡ r
unfolding take_state
take_state-is_final t r h = ground arith

take_response-at_work :
    (resp : SseResponse) (t : TaskResult) (st : Stream)
    → resp.error ≡ none
    → resp.result ≡ some t
    → is_final t.status.state ≡ false
    → take_response (some resp) st ≡ record st {
      result = record st.result { task_id = id_of t st.result.task_id };
      artifacts = st.artifacts ++ texts_in t;
    }
unfolding take_response take_task
take_response-at_work resp t st e r h =
    rw (e, r, take_response)
      (ap (λ x. record st { result = x; artifacts = st.artifacts ++ artifact_texts t.artifact })
          (take_state-is_final t (take_task_id t st.result) h ∙ take_task_id-id_of t st.result)
        ∙ ap
            (λ texts. record st {
              result = record st.result { task_id = id_of t st.result.task_id };
              artifacts = st.artifacts ++ texts;
            })
            (artifact_texts-texts_in t))

take_response-ignored : (st : Stream) → take_response none st ≡ st
unfolding take_response
take_response-ignored st = refl

module _ (unmarshal : Str → Option SseResponse) where
  answer_open :
      (d : Str) (ds : List Str) (st next : Stream)
      → take_response (unmarshal (object d)) st ≡ next
      → next.result.status ≡ RunStatus.unset
      → answer unmarshal (d ∷ ds) st ≡ answer unmarshal ds next
  answer_open d ds st next e h =
      ap (λ (n : Stream). if is_terminal n.result.status then deliver n else answer unmarshal ds n)
        e
      ∙ ap (λ x. if is_terminal x then deliver next else answer unmarshal ds next) h

  pub answer-Working :
      {ds : List Str} {ts : List TaskResult} (st : Stream) (more : List Str)
      → Working unmarshal ds ts
      → st.result.status ≡ RunStatus.unset
      → answer unmarshal (ds ++ more) st ≡ answer unmarshal more (behind ts st)
  answer-Working st more no_payload h =
      ap (λ texts. answer unmarshal more (record st { artifacts = texts }))
        (sym (append-nil st.artifacts))
  answer-Working st more (ignored {d = d} {ds = ds} none_there rest) h =
      answer_open d (ds ++ more) st st
        (ap (λ x. take_response x st) none_there ∙ take_response-ignored st) h
      ∙ answer-Working st more rest h
  answer-Working st more (at_work {d = d} {ds = ds} {ts = ts} resp task there e r working rest) h =
      let next : Stream = record st {
        result = record st.result { task_id = id_of task st.result.task_id };
        artifacts = st.artifacts ++ texts_in task;
      } in
      answer_open d (ds ++ more) st next
        (ap (λ x. take_response x st) there ∙ take_response-at_work resp task st e r working) h
      ∙ answer-Working next more rest h
      ∙ ap
          (λ texts. answer unmarshal more (record next {
            result = record next.result { task_id = last_id ts next.result.task_id };
            artifacts = texts;
          }))
          (append_assoc st.artifacts (texts_in task) (all_texts ts))
