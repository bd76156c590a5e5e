-- ===== src/Runner/Framing.antt =====
-- A stream of well-formed server-sent events, from bytes to the result of the run.
use cluster.Prelude.{
  Str, lit, ℕ, suc, Option, none, some, List, [], ◌∷◌, ◌++◌, ◌≡◌, refl, sym, ap, ◌∙◌, inl, inr,
  Bool-cases, Option-cases, if◌then◌else◌,
}
use cluster.Runner.Types.{ok}
use cluster.Runner.Scanner.{Scan, line, scan_from, scan}
use cluster.Runner.Sse.{
  SseEvent, TaskResult, SseResponse, Stream, initial, no_event, take_task, take_response,
  is_terminal, deliver, process_event, end_event, parse_lines, parse_sse_stream,
}
use cluster.Runner.Frames.{object, data_line, frames, Sendable, answer, take_data_line, scan_frame}

take_task-current :
    (task : Option TaskResult) (st : Stream) (e : SseEvent)
    → take_task task (record st { current = e }) ≡ record (take_task task st) { current = e }
unfolding take_task
take_task-current none st e = refl
take_task-current (some task) st e = refl

-- Taking a response neither reads nor changes the current event.
take_response-current :
    (resp : Option SseResponse) (st : Stream) (e : SseEvent)
    → take_response resp (record st { current = e })
      ≡ record (take_response resp st) { current = e }
unfolding take_response
take_response-current none st e = refl
take_response-current (some resp) st e = elim (Option-cases resp.error) [
  | inl h ↦ rw (h, take_response) (take_task-current resp.result st e)
  | inr (x, h) ↦ rw (h, take_response) refl
]

module _ (unmarshal : Str → Option SseResponse) (cancelled : ℕ → Option Str)
    (live : (n : ℕ) → cancelled n ≡ none) where
  -- The end of an event is answered, and the parser goes on with the next unless it is over.
  parse_blank :
      (n : ℕ) (d : Str) (rest : Scan) (st : Stream) (e : SseEvent)
      → parse_lines unmarshal cancelled n
          (line [] rest)
          (record st { current = record e { contents = object d } })
        ≡ (let next = take_response (unmarshal (object d)) st in
            if is_terminal next.result.status
            then ok (deliver next)
            else parse_lines unmarshal cancelled (suc n) rest (record next { current = no_event }))
  unfolding parse_lines end_event process_event deliver
  parse_blank n d rest st e =
      rw (live n, parse_lines, end_event, process_event)
        (rw (take_response-current (unmarshal (object d)) st (record e { contents = object d }))
          refl)

  parse_event :
      (n : ℕ) (d : Str) (rest : Scan) (st : Stream)
      → parse_lines unmarshal cancelled n (line (data_line d ++ (b'}' ∷ [])) (line [] rest)) st ≡ (
          let next = take_response (unmarshal (object d)) st in
          if is_terminal next.result.status
          then ok (deliver next)
          else parse_lines unmarshal cancelled
              (suc (suc n))
              rest
              (record next { current = no_event }))
  unfolding parse_lines lit
  parse_event n d rest st =
      rw (live n, parse_lines)
        (ap
            (λ (e : SseEvent).
              parse_lines unmarshal cancelled (suc n) (line [] rest) (record st { current = e }))
            (take_data_line d st.current)
          ∙ parse_blank (suc n) d rest st st.current)

  parse_frames :
      (n : ℕ) (ds : List Str) (st : Stream)
      → Sendable ds
      → parse_lines unmarshal cancelled n
          (scan_from [] 0 none (frames ds))
          (record st { current = no_event })
        ≡ ok (answer unmarshal ds (record st { current = no_event }))
  unfolding parse_lines scan_from
  parse_frames n [] st h = refl
  parse_frames n (d ∷ ds) st h =
      let st0 : Stream = record st { current = no_event } in
      let next = take_response (unmarshal (object d)) st0 in
      let same : next ≡ record next { current = no_event } =
        take_response-current (unmarshal (object d)) st0 no_event in
      ap (λ l. parse_lines unmarshal cancelled n l st0) (scan_frame d none (frames ds) h.0.0 h.0.1)
      ∙ parse_event n d (scan_from [] 0 none (frames ds)) st0
      ∙ elim (Bool-cases (is_terminal next.result.status)) [
        | inl last ↦ rw (last, answer) refl
        | inr further ↦
            rw (further, answer)
              (parse_frames (suc (suc n)) ds next h.1
                ∙ ap (λ s. ok (answer unmarshal ds s)) (sym same))
      ]

-- A body of events whose data are JSON objects of one line, each within the scanner's buffer, under
-- a context that is not over, is answered event by event: `RunAgent` gets the result that
-- `processEvent` makes of the objects in order, up to the first with a terminal status, whose
-- artifact texts stand in for an empty output; without one the result is Failed. The framing, the
-- blank lines and the trimming of the lines lose and add nothing.
pub parse_sse_stream-frames :
    (unmarshal : Str → Option SseResponse) (cancelled : ℕ → Option Str) (ds : List Str)
    → ((n : ℕ) → cancelled n ≡ none)
    → Sendable ds
    → parse_sse_stream unmarshal cancelled (scan none (frames ds))
      ≡ ok (answer unmarshal ds initial)
unfolding parse_sse_stream scan
parse_sse_stream-frames unmarshal cancelled ds live h =
    parse_frames unmarshal cancelled live 0 ds initial h
