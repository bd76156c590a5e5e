-- ===== src/Copies/Maps.antt =====
-- The loop that copies a map key by key.
use cluster.Prelude.{
  str_eq_sym, Str, str_eq, true, false, [], ◌∷◌, ◌++◌, append_assoc, append-nil, ◌≡◌, refl, sym, ap,
  ◌∙◌, arith, inl, inr, Bool-cases,
}
use cluster.Api.{StrMap}
use cluster.Controller.Handler.{insert}
use cluster.Copies.Memory.{Cell, pure}
use cluster.Copies.Views.{as_str_map, as_duration, as_strings}
use cluster.Copies.Copy.{copy_entries, copy_map, copy_duration, copy_strings}
use cluster.Copies.Denotation.{is_new, is_map, SameMap, IsStrMap, IsDuration, IsStrings}
use cluster.Copies.Regions.{Extends-refl}
use cluster.Copies.Combinators.{Copies, Copies-Same, Copies-copy_new}
use cluster.Copies.Pointers.{Copies-unless_nil, Copies-Sequence}

insert-is_new : (k v : Str) (m : StrMap) → is_new k m ≡ true → insert k v m ≡ m ++ ((k, v) ∷ [])
unfolding insert
insert-is_new k v [] h = refl
insert-is_new k v ((j, w) ∷ m) h = elim (Bool-cases (str_eq j k)) [
  | inl same ↦ absurd (ground arith)
  | inr other ↦ rw (other, insert) (ap (λ r. (j, w) ∷ r) (insert-is_new k v m (ground arith)))
]

is_new-append :
    (j k v : Str) (m r : StrMap) → is_new j (m ++ ((k, v) ∷ r)) ≡ true → str_eq k j ≡ false
is_new-append j k v [] r h = ground arith
is_new-append j k v ((i, w) ∷ m) r h = is_new-append j k v m r (ground arith)

-- A key behind others is none of them.
is_map-is_new :
    (m : StrMap) (k v : Str) (r : StrMap) → is_map (m ++ ((k, v) ∷ r)) ≡ true → is_new k m ≡ true
is_map-is_new [] k v r h = refl
is_map-is_new ((j, w) ∷ m) k v r h =
    let apart : str_eq j k ≡ false = str_eq_sym j k ∙ is_new-append j k v m r (ground arith) in
    let rest : is_new k m ≡ true = is_map-is_new m k v r (ground arith) in rw (apart, rest) refl

copy_entries-append : (m out : StrMap) → is_map (out ++ m) ≡ true → copy_entries m out ≡ out ++ m
unfolding copy_entries
copy_entries-append [] out h = sym (append-nil out)
copy_entries-append ((k, v) ∷ m) out h =
    let later : (out ++ ((k, v) ∷ [])) ++ m ≡ out ++ ((k, v) ∷ m) =
      append_assoc out ((k, v) ∷ []) m in
    ap (copy_entries m) (insert-is_new k v out (is_map-is_new out k v m h))
    ∙ copy_entries-append m (out ++ ((k, v) ∷ [])) (ap is_map later ∙ h)
    ∙ later

Copies-entries : Copies SameMap (λ m. pure (copy_entries m []))
Copies-entries = record {
  widens = λ u w x v sub r. r;
  copied = λ h x v (same, keys).
      let all : copy_entries x [] ≡ x = copy_entries-append x [] keys in
      (copy_entries x [], h, refl, ((all ∙ same, ap is_map all ∙ keys), Extends-refl h));
}

pub Copies-copy_map : Copies IsStrMap copy_map
unfolding copy_map
Copies-copy_map =
    Copies-Sequence (Copies-copy_new as_str_map Cell.str_map (λ x. refl) Copies-entries)

pub Copies-copy_duration : Copies IsDuration copy_duration
unfolding copy_duration
Copies-copy_duration =
    Copies-unless_nil (Copies-copy_new as_duration Cell.duration (λ x. refl) Copies-Same)

pub Copies-copy_strings : Copies IsStrings copy_strings
unfolding copy_strings
Copies-copy_strings =
    Copies-Sequence (Copies-copy_new as_strings Cell.strings (λ x. refl) Copies-Same)
