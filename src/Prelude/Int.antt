-- ===== src/Prelude/Int.antt =====
-- Signed integers over the native numbers, and the wrap-around increment of Go's `int32`.
use Prim.Native.Nat.{ℕ, zero, suc, ◌+◌, ◌≤◌}
use mathlib.Core.Path.{◌≡◌}
use mathlib.Core.Bool.{Bool, true}
use native.Mathlib.Omega.{arith}
use cluster.Prelude.Tests.{ltb, ◌==◌, if◌then◌else◌}

-- `negsuc n` is -(n + 1).
pub data ℤ : Type 0 where
  pos : ℕ → ℤ
  negsuc : ℕ → ℤ

abbrev pub pos_part : ℤ → ℕ
pos_part (pos n) = n
pos_part (negsuc n) = 0

abbrev pub neg_part : ℤ → ℕ
neg_part (pos n) = 0
neg_part (negsuc n) = suc n

abbrev pub ltb_ℤ : ℤ → ℤ → Bool
ltb_ℤ a b = ltb (pos_part a + neg_part b) (pos_part b + neg_part a)

-- The largest value of `int32`.
abbrev pub max_int32 : ℕ
max_int32 = 2147483647

-- `x++` on an `int32`: the largest value wraps to the smallest.
unfoldable pub incr_int32 : ℤ → ℤ
incr_int32 (pos n) = if n == max_int32 then negsuc max_int32 else pos (n + 1)
incr_int32 (negsuc zero) = pos 0
incr_int32 (negsuc (suc n)) = negsuc n

-- Below a bound that an `int32` can hold, the increment does not wrap.
pub incr_int32_exact :
    (n : ℕ) (m : ℤ)
    → pos_part m ≤ max_int32
    → ltb_ℤ (pos n) m ≡ true
    → incr_int32 (pos n) ≡ pos (n + 1)
unfolding incr_int32
incr_int32_exact n m h l = ground arith
