-- ===== src/Copies/Pointers.antt =====
-- Copies through pointers that may be nil, and of the elements of a slice.
use cluster.Prelude.{Option, none, some, List, [], ◌∷◌, ◌≡◌, refl}
use cluster.Copies.Memory.{Address, Pointer, Cells, Heap, M, ◌>>=◌}
use cluster.Copies.Copy.{unless_nil, copy_all}
use cluster.Copies.Denotation.{
  Denotes, Nullable, null, points, Sequence, nil, holds, Each, no_more, more,
}
use cluster.Copies.Regions.{
  between, Within, Extends-refl, Extends-trans, Within-Extends, Within-earlier,
}
use cluster.Copies.Combinators.{Fresh, Copies}

module _ {A : Type 0} {R : Denotes Address A} {f : Address → M Address} (law : Copies R f) where
  Nullable-Within :
      (u w : Cells) (x : Pointer) (v : Option A) → Within u w → Nullable R u x v → Nullable R w x v
  Nullable-Within u w _ _ sub null = null
  Nullable-Within u w (some q) (some v) sub (points r) = points (law.widens u w q v sub r)

  unless_nil-Nullable :
      (h : Heap) (x : Pointer) (v : Option A)
      → Nullable R (between 0 h.next h.cell) x v
      → (y : Pointer) × (h' : Heap) × (unless_nil x f h ≡ some (y, h'))
        × Fresh (Nullable R) h v y h'
  unfolding unless_nil
  unless_nil-Nullable h _ _ null = (none, h, refl, (null, Extends-refl h))
  unless_nil-Nullable h (some q) (some v) (points r) =
      let (y, h', e, (fresh, ext)) = law.copied h q v r in
      (some y, h', rw (e, ◌>>=◌) refl, (points fresh, ext))

  pub Copies-unless_nil : Copies (Nullable R) (λ x. unless_nil x f)
  Copies-unless_nil = record { widens = Nullable-Within; copied = unless_nil-Nullable }

module _ {A : Type 0} {R : Denotes Address (List A)} {f : Address → M Address}
    (law : Copies R f) where
  Sequence-Within :
      (u w : Cells) (x : Pointer) (v : List A) → Within u w → Sequence R u x v → Sequence R w x v
  Sequence-Within u w _ _ sub nil = nil
  Sequence-Within u w (some q) v sub (holds r) = holds (law.widens u w q v sub r)

  unless_nil-Sequence :
      (h : Heap) (x : Pointer) (v : List A)
      → Sequence R (between 0 h.next h.cell) x v
      → (y : Pointer) × (h' : Heap) × (unless_nil x f h ≡ some (y, h'))
        × Fresh (Sequence R) h v y h'
  unfolding unless_nil
  unless_nil-Sequence h _ _ nil = (none, h, refl, (nil, Extends-refl h))
  unless_nil-Sequence h (some q) v (holds r) =
      let (y, h', e, (fresh, ext)) = law.copied h q v r in
      (some y, h', rw (e, ◌>>=◌) refl, (holds fresh, ext))

  pub Copies-Sequence : Copies (Sequence R) (λ x. unless_nil x f)
  Copies-Sequence = record { widens = Sequence-Within; copied = unless_nil-Sequence }

module _ {G A : Type 0} {R : Denotes G A} {f : G → M G} (law : Copies R f) where
  Each-Within :
      (u w : Cells) (xs : List G) (vs : List A) → Within u w → Each R u xs vs → Each R w xs vs
  Each-Within u w _ _ sub no_more = no_more
  Each-Within u w (x ∷ xs) (v ∷ vs) sub (more r rest) =
      more (law.widens u w x v sub r) (Each-Within u w xs vs sub rest)

  copy_all-Each :
      (h : Heap) (xs : List G) (vs : List A)
      → Each R (between 0 h.next h.cell) xs vs
      → (ys : List G) × (h' : Heap) × (copy_all f xs h ≡ some (ys, h')) × Fresh (Each R) h vs ys h'
  unfolding copy_all
  copy_all-Each h _ _ no_more = ([], h, refl, (no_more, Extends-refl h))
  copy_all-Each h (x ∷ xs) (v ∷ vs) (more r rest) =
      let (y, h1, e, (fresh, ext)) = law.copied h x v r in
      let (ys, h2, e', (fresh', ext')) =
        copy_all-Each h1 xs vs (Each-Within _ _ xs vs (Within-Extends 0 h h1 ext) rest) in
      (
        y ∷ ys,
        h2,
        rw (e, e', ◌>>=◌) refl,
        (
          more (law.widens _ _ y v (Within-Extends h.next h1 h2 ext') fresh)
              (Each-Within _ _ ys vs (Within-earlier h h1 h2 ext) fresh'),
          Extends-trans h h1 h2 ext ext',
        ),
      )

  pub Copies-copy_all : Copies (Each R) (copy_all f)
  Copies-copy_all = record { widens = Each-Within; copied = copy_all-Each }
