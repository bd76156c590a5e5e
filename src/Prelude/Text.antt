-- ===== src/Prelude/Text.antt =====
-- Go strings as lists of bytes: literals, equality, prefixes, join and decimal numbers.
use Prim.Native.Nat.{ℕ, zero, suc, ◌+◌, ◌/◌, ◌%◌}
use Prim.Native.Char.{code}
use Prim.Native.String.{String}
use mathlib.Core.Path.{◌≡◌, refl, sym, ◌∙◌}
use mathlib.Core.Logic.{◌↔◌, inl, inr}
use mathlib.Core.Bool.{Bool, true, false, ◌&&◌}
use mathlib.Core.List.{List, [], ◌∷◌}
use native.Mathlib.Omega.{arith}
use cluster.Prelude.Tests.{Bool-cases, ◌==◌, ltb, if◌then◌else◌}
use cluster.Prelude.Int.{ℤ, pos, negsuc}

abbrev pub Str : Type 0
Str = List ℕ

-- The bytes of an ASCII literal.
unfoldable pub lit : String → Str
lit String.[] = []
lit (String.◌∷◌ c s) = code c ∷ lit s

-- `a == b` on strings.
unfoldable pub str_eq : Str → Str → Bool
str_eq [] [] = true
str_eq (a ∷ xs) (b ∷ ys) = a == b && str_eq xs ys
str_eq _ _ = false

pub str_eq_iff : (s t : Str) → (str_eq s t ≡ true) ↔ (s ≡ t)
unfolding str_eq
str_eq_iff [] [] = (λ _. refl, λ _. refl)
str_eq_iff [] (b ∷ bs) = (λ h. cc, λ h. cc)
str_eq_iff (a ∷ xs) [] = (λ h. cc, λ h. cc)
str_eq_iff (a ∷ xs) (b ∷ ys) = ground (arith, str_eq_iff xs ys)

pub str_eq_refl : (s : Str) → str_eq s s ≡ true
str_eq_refl s = (str_eq_iff s s).1 refl

-- `s == ""`.
abbrev pub is_empty : Str → Bool
is_empty [] = true
is_empty (_ ∷ _) = false

-- The digits of `n`, given more fuel than `n` has digits.
decimal_loop : ℕ → ℕ → Str → Str
decimal_loop zero n acc = acc
decimal_loop (suc f) n acc =
    let digit = b'0' + n % 10 in
    let rest = decimal_loop f (n / 10) (digit ∷ acc) in if ltb n 10 then digit ∷ acc else rest

-- `%d`
unfoldable pub decimal : ℕ → Str
unfolding decimal_loop
decimal n = decimal_loop (suc n) n []

unfoldable pub decimal_ℤ : ℤ → Str
unfolding decimal
decimal_ℤ (pos n) = decimal n
decimal_ℤ (negsuc n) = b'-' ∷ decimal (suc n)

pub str_eq_sym : (x y : Str) → str_eq x y ≡ str_eq y x
str_eq_sym x y = elim (Bool-cases (str_eq x y)) [
  | inl h ↦ elim (Bool-cases (str_eq y x)) [
    | inl h' ↦ h ∙ sym h'
    | inr h' ↦ absurd (cc ((str_eq_iff x y).0 h))
  ]
  | inr h ↦ elim (Bool-cases (str_eq y x)) [
    | inl h' ↦ absurd (cc ((str_eq_iff y x).0 h'))
    | inr h' ↦ h ∙ sym h'
  ]
]
