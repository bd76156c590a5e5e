-- ===== src/Runner/Frames.antt =====
-- Events of one line, and what bufio.Scanner makes of them.
use cluster.Prelude.{
  Str, lit, ℕ, ◌+◌, ◌<◌, ◌==◌, leb, Option, List, [], ◌∷◌, ◌++◌, length, length-append,
  append_assoc, ◌≡◌, ◌≢◌, refl, ap, ◌∙◌, inl, inr, arith, Bool-cases, if◌then◌else◌,
}
use mathlib.Core.List.{reverse, reverse_aux, reverse-cons, reverse-append, reverse-reverse}
use cluster.Runner.Types.{RunResult}
use cluster.Runner.Strings.{
  has_prefix, trim_prefix, space_at_front, space_at_end, trim_loop, trim_space,
}
use cluster.Runner.Scanner.{Scan, line, max_token_size, drop_cr, emit, scan_from}
use cluster.Runner.Sse.{
  SseEvent, SseResponse, Stream, take_response, is_terminal, deliver, close_stream, take_line,
}

-- A text of one line.
abbrev pub IsLine : Str → Type 0
IsLine [] = Unit
IsLine (c ∷ cs) = (c ≢ b'\n') × IsLine cs

-- A JSON object with the text `d` between its braces.
abbrev pub object : Str → Str
object d = b'{' ∷ (d ++ (b'}' ∷ []))

-- The line of an event, without its last character.
abbrev pub data_line : Str → Str
data_line d = lit "data: {" ++ d

-- The bytes of an event.
abbrev pub frame : Str → Str
frame d = (data_line d ++ (b'}' ∷ [])) ++ (b'\n' ∷ b'\n' ∷ [])

abbrev pub frames : List Str → Str
frames [] = []
frames (d ∷ ds) = frame d ++ frames ds

-- Texts of one line that the scanner's buffer holds.
abbrev pub Sendable : List Str → Type 0
Sendable [] = Unit
Sendable (d ∷ ds) = (IsLine d × (length d + 8 < max_token_size)) × Sendable ds

-- The result of a run that answers `ds`, in order, up to the first that is terminal.
abbrev pub answer : (Str → Option SseResponse) → List Str → Stream → RunResult
answer unmarshal [] st = close_stream st.result
answer unmarshal (d ∷ ds) st =
    let next = take_response (unmarshal (object d)) st in
    let rest = answer unmarshal ds next in
    if is_terminal next.result.status then deliver next else rest

scan_line :
    (l back : Str) (size : ℕ) (failed : Option Str) (rest : Str)
    → IsLine l
    → scan_from back size failed (l ++ (b'\n' ∷ rest))
      ≡ emit (reverse_aux l back) (length l + size) (scan_from [] 0 failed rest)
unfolding scan_from
scan_line [] back size failed rest h =
    ap (λ n. emit back n (scan_from [] 0 failed rest)) (omega arith)
scan_line (c ∷ l) back size failed rest h = elim (Bool-cases (c == b'\n')) [
  | inl e ↦ absurd (h.0 (ground arith))
  | inr e ↦
      rw (e, scan_from)
        (scan_line l (c ∷ back) (1 + size) failed rest h.1
          ∙ ap (λ n. emit (reverse_aux l (c ∷ back)) n (scan_from [] 0 failed rest)) (omega arith))
]

IsLine-append : (xs ys : Str) → IsLine xs → IsLine ys → IsLine (xs ++ ys)
IsLine-append [] ys f g = g
IsLine-append (x ∷ xs) ys f g = (f.0, IsLine-append xs ys f.1 g)

-- A line that ends in a brace keeps all its bytes.
drop_cr_brace : (m : Str) → drop_cr (reverse (m ++ (b'}' ∷ []))) ≡ m ++ (b'}' ∷ [])
unfolding drop_cr
drop_cr_brace m =
    rw (reverse-append m (b'}' ∷ []), drop_cr)
      (rw (reverse-append (b'}' ∷ []) (reverse m)) (ap (λ r. r ++ (b'}' ∷ [])) (reverse-reverse m)))

space_at_front-space : (s : Str) → space_at_front (b' ' ∷ s) ≡ 1
unfolding space_at_front
space_at_front-space [] = refl
space_at_front-space (a ∷ []) = refl
space_at_front-space (a ∷ b ∷ r) = refl

space_at_front-brace : (s : Str) → space_at_front (b'{' ∷ s) ≡ 0
unfolding space_at_front
space_at_front-brace [] = refl
space_at_front-brace (a ∷ []) = refl
space_at_front-brace (a ∷ b ∷ r) = refl

space_at_end-brace : (s : Str) → space_at_end (b'}' ∷ s) ≡ 0
unfolding space_at_end
space_at_end-brace [] = refl
space_at_end-brace (a ∷ []) = ground arith
space_at_end-brace (a ∷ b ∷ r) = ground arith

-- Trimming takes the space off a JSON object.
trim_space-object : (d : Str) → trim_space (b' ' ∷ object d) ≡ object d
unfolding trim_space trim_loop
trim_space-object d =
    rw (space_at_front-space (object d), trim_loop)
      (rw (space_at_front-brace (d ++ (b'}' ∷ [])), trim_loop)
        (rw (reverse-append (b'{' ∷ d) (b'}' ∷ [])) (
          rw (space_at_end-brace (reverse (b'{' ∷ d)), trim_loop)
            (reverse-cons b'}' (reverse (b'{' ∷ d))
              ∙ ap (λ r. r ++ (b'}' ∷ [])) (reverse-reverse (b'{' ∷ d))))))

pub take_data_line :
    (d : Str) (e : SseEvent)
    → take_line (data_line d ++ (b'}' ∷ [])) e ≡ record e { contents = object d }
unfolding take_line has_prefix trim_prefix lit
take_data_line d e = ap (λ (x : Str). record e { contents = x }) (trim_space-object d)

emit_line :
    (m : Str) (size : ℕ) (rest : Scan)
    → size < max_token_size
    → emit (reverse (m ++ (b'}' ∷ []))) size rest ≡ line (m ++ (b'}' ∷ [])) rest
unfolding emit
emit_line m size rest h = elim (Bool-cases (leb max_token_size size)) [
  | inl long ↦ absurd (ground arith)
  | inr short ↦ rw (short, emit) (ap (λ l. line l rest) (drop_cr_brace m))
]

-- The lines of an event.
pub scan_frame :
    (d : Str) (failed : Option Str) (rest : Str)
    → IsLine d
    → length d + 8 < max_token_size
    → scan_from [] 0 failed (frame d ++ rest)
      ≡ line (data_line d ++ (b'}' ∷ [])) (line [] (scan_from [] 0 failed rest))
unfolding lit
scan_frame d failed rest one short =
    ap (scan_from [] 0 failed) (append_assoc (data_line d ++ (b'}' ∷ [])) (b'\n' ∷ b'\n' ∷ []) rest)
    ∙ scan_line (data_line d ++ (b'}' ∷ [])) [] 0 failed (b'\n' ∷ rest) (
        IsLine-append (data_line d) (b'}' ∷ [])
          (
            ground arith,
            (
              ground arith,
              (ground arith, (ground arith, (ground arith, (ground arith, (ground arith, one))))),
            ),
          )
          (ground arith, tt))
    ∙ emit_line (data_line d) _ _ (omega (arith, length-append d (b'}' ∷ [])))
    ∙ ap (line (data_line d ++ (b'}' ∷ []))) (unfold scan_from emit drop_cr in refl)
