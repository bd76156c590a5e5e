-- ===== src/Runner/Strings.antt =====
-- What agentpipeline-operator/internal/runner/a2a_runner.go uses of Go's package strings.
use cluster.Prelude.{
  Str, ℕ, zero, suc, ◌==◌, leb, Bool, true, false, ◌&&◌, ◌||◌, List, [], ◌∷◌, ◌++◌, length, drop,
  if◌then◌else◌,
}
use mathlib.Core.List.{reverse}

-- strings.HasPrefix(s, prefix)
unfoldable pub has_prefix : Str → Str → Bool
has_prefix s [] = true
has_prefix [] (p ∷ ps) = false
has_prefix (c ∷ cs) (p ∷ ps) = c == p && has_prefix cs ps

-- strings.TrimPrefix(s, prefix)
unfoldable pub trim_prefix : Str → Str → Str
unfolding has_prefix
trim_prefix s prefix = if has_prefix s prefix then drop (length prefix) s else s

abbrev is_ascii_space : ℕ → Bool
is_ascii_space c = c == 32 || (leb 9 c && leb c 13)

-- U+0085 and U+00A0
abbrev is_space2 : ℕ → ℕ → Bool
is_space2 a b = a == 0xc2 && (b == 0x85 || b == 0xa0)

-- U+1680, U+2000 to U+200A, U+2028, U+2029, U+202F, U+205F and U+3000
abbrev is_space3 : ℕ → ℕ → ℕ → Bool
is_space3 a b c =
    (a == 0xe1 && (b == 0x9a && c == 0x80))
    || ((a == 0xe2
          && (b == 0x80 && ((leb 0x80 c && leb c 0x8a) || (c == 0xa8 || (c == 0xa9 || c == 0xaf)))))
        || ((a == 0xe2 && (b == 0x81 && c == 0x9f)) || (a == 0xe3 && (b == 0x80 && c == 0x80))))

-- The number of bytes of a white space character (unicode.IsSpace) at the front, 0 if none is there.
unfoldable pub space_at_front : Str → ℕ
space_at_front [] = 0
space_at_front (a ∷ []) = if is_ascii_space a then 1 else 0
space_at_front (a ∷ b ∷ []) = if is_ascii_space a then 1 else if is_space2 a b then 2 else 0
space_at_front (a ∷ b ∷ c ∷ r) =
    if is_ascii_space a then 1 else if is_space2 a b then 2 else if is_space3 a b c then 3 else 0

-- The same at the end of a text that is given in reverse.
unfoldable pub space_at_end : Str → ℕ
space_at_end [] = 0
space_at_end (a ∷ []) = if is_ascii_space a then 1 else 0
space_at_end (b ∷ a ∷ []) = if is_ascii_space b then 1 else if is_space2 a b then 2 else 0
space_at_end (c ∷ b ∷ a ∷ r) =
    if is_ascii_space c then 1 else if is_space2 b c then 2 else if is_space3 a b c then 3 else 0

-- Drops what `space` measures, as often as it can; the fuel is the number of bytes.
unfoldable pub trim_loop : (Str → ℕ) → ℕ → Str → Str
trim_loop space zero s = s
trim_loop space (suc f) s =
    let rest = trim_loop space f (drop (space s) s) in if space s == 0 then s else rest

-- strings.TrimSpace(s)
unfoldable pub trim_space : Str → Str
unfolding trim_loop space_at_front space_at_end
trim_space s =
    let front = trim_loop space_at_front (length s) s in
    reverse (trim_loop space_at_end (length front) (reverse front))

abbrev pub slash_at_end : Str → ℕ
slash_at_end [] = 0
slash_at_end (c ∷ _) = if c == b'/' then 1 else 0

-- strings.TrimRight(s, "/")
unfoldable pub trim_right_slashes : Str → Str
unfolding trim_loop
trim_right_slashes s = reverse (trim_loop slash_at_end (length s) (reverse s))

-- strings.Join(parts, "\n")
unfoldable pub join_lines : List Str → Str
join_lines [] = []
join_lines (x ∷ []) = x
join_lines (x ∷ y ∷ r) = x ++ (b'\n' ∷ join_lines (y ∷ r))
