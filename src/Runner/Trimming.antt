-- ===== src/Runner/Trimming.antt =====
-- The base URL of the A2A runner.
use cluster.Prelude.{Str, ℕ, zero, suc, [], ◌∷◌}

abbrev pub slashes : ℕ → Str
slashes zero = []
slashes (suc n) = b'/' ∷ slashes n
