-- ===== src/Runner/Scanner.antt =====
-- What agentpipeline-operator/internal/runner/a2a_runner.go uses of Go's `bufio.Scanner`: the lines
-- of a body, with a limit on their length.
use cluster.Prelude.{
  Str, lit, ℕ, ◌+◌, ◌*◌, ◌==◌, leb, Option, some, [], ◌∷◌, is_empty, if◌then◌else◌,
}
use mathlib.Core.List.{reverse}

-- The lines in order, and `scanner.Err()` behind the last.
pub data Scan : Type 0 where
  over : Option Str → Scan
  line : Str → Scan → Scan

-- The limit that `scanner.Buffer` sets: a line and its newline fit into so many bytes.
abbrev pub max_token_size : ℕ
max_token_size = 1024 * 1024

abbrev drop_first_cr : Str → Str
drop_first_cr [] = []
drop_first_cr (c ∷ cs) = if c == b'\r' then cs else c ∷ cs

-- A line without the carriage return that may end it; `back` is the line in reverse.
unfoldable pub drop_cr : Str → Str
drop_cr back = reverse (drop_first_cr back)

-- A line of `size` bytes, given in reverse, and what follows.
unfoldable pub emit : Str → ℕ → Scan → Scan
unfolding drop_cr
emit back size rest =
    if leb max_token_size size
    then over (some (lit "bufio.Scanner: token too long"))
    else line (drop_cr back) rest

-- `back` are the bytes of the current line in reverse, `size` their number, and `failed` is the
-- error in which reading the body ends, `none` at a plain end.
unfoldable pub scan_from : Str → ℕ → Option Str → Str → Scan
unfolding emit
scan_from back size failed [] = if is_empty back then over failed else emit back size (over failed)
scan_from back size failed (c ∷ rest) =
    let next = emit back size (scan_from [] 0 failed rest) in
    let longer = scan_from (c ∷ back) (1 + size) failed rest in if c == b'\n' then next else longer

unfoldable pub scan : Option Str → Str → Scan
unfolding scan_from
scan failed body = scan_from [] 0 failed body
