-- ===== src/Runner/Stream.antt =====
-- How the parsing of a stream of server-sent events ends.
use cluster.Prelude.{
  Str, lit, str_eq, is_empty, ℕ, suc, true, not, ◌&&◌, ◌||◌, Option, none, some, List, [], ◌∷◌,
  ◌++◌, ◌≡◌, refl, ap, ◌∙◌, ◌⊎◌, inl, inr, arith, Bool-cases, Option-cases,
}
use cluster.Runner.Types.{Result, ok, err, RunStatus, RunResult}
use cluster.Runner.Scanner.{Scan, over, line}
use cluster.Runner.Sse.{
  TaskResult, SseResponse, Stream, initial, no_event, take_task_id, take_state, take_task,
  take_response, is_terminal, deliver, close_stream, take_line, end_event, process_event,
  parse_lines, parse_sse_stream,
}

-- The status of a run in mid-stream: none as yet, or the last.
abbrev pub Streamed : RunStatus → Type 0
Streamed status = (status ≡ RunStatus.unset) ⊎ (is_terminal status ≡ true)

take_task_id-status : (task : TaskResult) (r : RunResult) → (take_task_id task r).status ≡ r.status
unfolding take_task_id
take_task_id-status task r = elim (Bool-cases (is_empty task.task_id)) [
  | inl e ↦ elim (Bool-cases (is_empty task.id)) [ inl f ↦ rw (e, f) refl | inr f ↦ rw (e, f) refl ]
  | inr e ↦ rw e refl
]

take_state-Streamed :
    (task : TaskResult) (r : RunResult) → Streamed r.status → Streamed (take_state task r).status
unfolding take_state
take_state-Streamed task r h = elim (Bool-cases (str_eq task.status.state (lit "completed"))) [
  | inl e ↦ rw e (inr refl)
  | inr e ↦
      elim (Bool-cases
        (str_eq task.status.state (lit "failed") || str_eq task.status.state (lit "canceled"))) [
          | inl f ↦ rw (e, f) (inr refl)
          | inr f ↦ rw (e, f) h
        ]
]

take_task-Streamed :
    (task : Option TaskResult) (st : Stream)
    → Streamed st.result.status
    → Streamed (take_task task st).result.status
unfolding take_task
take_task-Streamed none st h = h
take_task-Streamed (some task) st h =
    take_state-Streamed task (take_task_id task st.result)
      (rw (take_task_id-status task st.result) h)

take_response-Streamed :
    (resp : Option SseResponse) (st : Stream)
    → Streamed st.result.status
    → Streamed (take_response resp st).result.status
unfolding take_response
take_response-Streamed none st h = h
take_response-Streamed (some resp) st h = elim (Option-cases resp.error) [
  | inl e ↦ rw e (take_task-Streamed resp.result st h)
  | inr (x, e) ↦ rw e (inr refl)
]

deliver-status : (st : Stream) → (deliver st).status ≡ st.result.status
unfolding deliver
deliver-status st = given st.artifacts refl
  where
    given : (xs : List Str) → st.artifacts ≡ xs → (deliver st).status ≡ st.result.status
    given [] e = rw (e, deliver) refl
    given (x ∷ r) e = elim (Bool-cases (is_empty st.result.output)) [
      | inl f ↦ rw (e, f, deliver) refl
      | inr f ↦ rw (e, f, deliver) refl
    ]

close_stream-terminal :
    (r : RunResult) → Streamed r.status → is_terminal (close_stream r).status ≡ true
unfolding close_stream
close_stream-terminal r (inl h) = rw h refl
close_stream-terminal r (inr h) = given r.status refl h
  where
    given :
        (s : RunStatus)
        → r.status ≡ s
        → is_terminal r.status ≡ true
        → is_terminal (close_stream r).status ≡ true
    given RunStatus.unset e h = rw (e, close_stream) refl
    given RunStatus.completed e h = rw (e, close_stream) (cc)
    given RunStatus.failed e h = rw (e, close_stream) (cc)
    given RunStatus.timed_out e h = cc (ap is_terminal e)
    given (RunStatus.other s) e h = cc (ap is_terminal e)

module _ (unmarshal : Str → Option SseResponse) (cancelled : ℕ → Option Str) where
  end_event-Streamed :
      (st : Stream)
      → Streamed st.result.status
      → Streamed (end_event unmarshal cancelled st).result.status
  unfolding end_event process_event
  end_event-Streamed st h = elim (Bool-cases (is_empty st.current.contents)) [
    | inl e ↦ rw e h
    | inr e ↦ rw e (take_response-Streamed (unmarshal st.current.contents) st h)
  ]

  -- The error in which the lines end.
  abbrev pub scan_error : Scan → Option Str
  scan_error (over e) = e
  scan_error (line l rest) = scan_error rest

  -- What `parseSSEStream` may return: a result with the status Completed or Failed, or an error of
  -- the context or of reading.
  pub data Parsed (body : Scan) : Result RunResult → Type 0 where
    answered : {r : RunResult} → is_terminal r.status ≡ true → Parsed body (ok r)
    cut_off : {e : Str} (n : ℕ) → cancelled n ≡ some e → Parsed body (err e)
    unread :
        (e : Str) → scan_error body ≡ some e → Parsed body (err (lit "reading SSE stream: " ++ e))

  later_line :
      {rest : Scan} {r : Result RunResult} (l : Str) → Parsed rest r → Parsed (line l rest) r
  later_line l (answered h) = answered h
  later_line l (cut_off n h) = cut_off n h
  later_line l (unread e h) = unread e h

  parse_lines-Parsed :
      (n : ℕ) (body : Scan) (st : Stream)
      → Streamed st.result.status
      → Parsed body (parse_lines unmarshal cancelled n body st)
  unfolding parse_lines
  parse_lines-Parsed n (over (some e)) st h = unread e refl
  parse_lines-Parsed n (over none) st h = answered (close_stream-terminal st.result h)
  parse_lines-Parsed n (line l rest) st h =
      let ended = end_event unmarshal cancelled st in
      let fresh =
        parse_lines-Parsed (suc n) rest (record ended { current = no_event })
          (end_event-Streamed st h) in
      let more =
        parse_lines-Parsed (suc n) rest (record st { current = take_line l st.current }) h in
      elim (Option-cases (cancelled n)) [
        | inr (e, c) ↦ rw (c, parse_lines) (cut_off n c)
        | inl c ↦ elim (Bool-cases (is_empty l)) [
          | inr text ↦ rw (c, text, parse_lines) (later_line l more)
          | inl blank ↦
              elim (Bool-cases
                (not (is_empty st.current.contents) && is_terminal ended.result.status)) [
                  | inl last ↦
                      rw (c, blank, last, parse_lines)
                        (answered (ap is_terminal (deliver-status ended) ∙ (ground arith)))
                  | inr further ↦ rw (c, blank, further, parse_lines) (later_line l fresh)
                ]
        ]
      ]

  -- Parsing a stream returns, and returns a result with the status Completed or Failed, or the
  -- error of a context that was over at some line, or the error in which the lines of the body end.
  -- In particular, events that cannot be decoded are no error.
  pub parse_sse_stream-Parsed :
      (body : Scan) → Parsed body (parse_sse_stream unmarshal cancelled body)
  unfolding parse_sse_stream
  parse_sse_stream-Parsed body = parse_lines-Parsed 0 body initial (inl refl)
