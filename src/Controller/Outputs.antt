-- ===== src/Controller/Outputs.antt =====
-- The names and the sizes of stage outputs.
use cluster.Prelude.{
  Str, lit, ℕ, zero, suc, ◌+◌, ◌-◌, ◌≤◌, leb, List, [], ◌∷◌, ◌++◌, length, drop, length-drop, ◌<◌,
  ◌≡◌, refl, ap, ◌⊎◌, inl, inr, arith, Bool-cases,
}
use cluster.Controller.Stages.{max_status_output_len, output_config_map_name, truncate_output}

drop-append :
    {A : Type 0} (n : ℕ) (xs : List A)
    → (front : List A) × (front ++ drop n xs ≡ xs) × (length front ≤ n)
drop-append zero xs = ([], refl, omega arith)
drop-append (suc n) [] = ([], refl, omega arith)
drop-append (suc n) (x ∷ xs) =
    let (front, same, short) = drop-append n xs in (x ∷ front, ap (λ ys. x ∷ ys) same, omega arith)

-- An output of at most 1024 bytes is kept, and of a longer one three dots and its last 1021 bytes.
pub truncate_output-suffix :
    (output : Str)
    → ((length output ≤ 1024) × (truncate_output output ≡ output))
      ⊎ ((1024 < length output)
          × ((front : Str) × (rest : Str) × (front ++ rest ≡ output)
              × (length rest ≡ 1021)
              × (truncate_output output ≡ lit "..." ++ rest)))
unfolding truncate_output
truncate_output-suffix output = elim (Bool-cases (leb (length output) max_status_output_len)) [
  | inl short ↦ inl (ground arith, rw (short, truncate_output))
  | inr long ↦
      let n = length output - max_status_output_len + 3 in
      let (front, same, _) = drop-append n output in
      inr (
        ground arith,
        (
          front,
          drop n output,
          same,
          ground (arith, length-drop n output),
          rw (long, truncate_output),
        ),
      )
]

append_cancel : (front xs ys : Str) → front ++ xs ≡ front ++ ys → xs ≡ ys
append_cancel [] xs ys h = h
append_cancel (c ∷ front) xs ys h = append_cancel front xs ys (cc)

-- Within one pipeline the names of the output ConfigMaps tell its stages apart.
pub output_config_map_name-injective :
    (pipeline s r : Str)
    → output_config_map_name pipeline s ≡ output_config_map_name pipeline r
    → s ≡ r
unfolding output_config_map_name
output_config_map_name-injective pipeline s r h =
    append_cancel (lit "-stage-") s r (append_cancel pipeline _ _ h)
