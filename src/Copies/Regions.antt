-- ===== src/Copies/Regions.antt =====
-- Parts of the memory, and what an allocation keeps.
use cluster.Prelude.{
  ℕ, suc, ◌&&◌, leb, ltb, none, some, ◌≡◌, refl, ◌∙◌, arith, if◌then◌else◌, inl, inr, Bool-cases,
  ◌≤◌, ◌<◌,
}
use cluster.Copies.Memory.{Address, Cell, Cells, Heap, put}

-- The cells from `lo` on and before `hi`.
abbrev pub between : ℕ → ℕ → Cells → Cells
between lo hi u q = if leb lo q && ltb q hi then u q else none

-- What `u` holds `w` holds.
abbrev pub Within : Cells → Cells → Type 0
Within u w = (q : Address) (c : Cell) → u q ≡ some c → w q ≡ some c

-- Allocations lead from `h` to `h'`: the cells that were used are as before.
pub record Extends (h h' : Heap) : Type 0 where
  pub later : h.next ≤ h'.next
  pub kept : (q : Address) → q < h.next → h'.cell q ≡ h.cell q

pub Extends-refl : (h : Heap) → Extends h h
Extends-refl h = record { later = omega arith; kept = λ q lt. refl }

pub Extends-trans : (h1 h2 h3 : Heap) → Extends h1 h2 → Extends h2 h3 → Extends h1 h3
Extends-trans h1 h2 h3 a b = record {
  later = omega (arith, a.later, b.later);
  kept = λ q lt. b.kept q (omega (arith, a.later, lt)) ∙ a.kept q lt;
}

pub between-inv :
    (lo hi : ℕ) (u : Cells) (q : Address) (c : Cell)
    → between lo hi u q ≡ some c
    → (lo ≤ q) × (q < hi) × (u q ≡ some c)
between-inv lo hi u q c h = elim (Bool-cases (leb lo q)) [
  | inl a ↦ elim (Bool-cases (ltb q hi)) [
    | inl b ↦ (ground arith, ground arith, ground arith)
    | inr b ↦ absurd (ground arith)
  ]
  | inr a ↦ absurd (ground arith)
]

between-intro :
    (lo hi : ℕ) (u : Cells) (q : Address) (c : Cell)
    → lo ≤ q
    → q < hi
    → u q ≡ some c
    → between lo hi u q ≡ some c
between-intro lo hi u q c a b h = ground arith

pub Within-between :
    (lo lo' hi hi' : ℕ) (u w : Cells)
    → lo' ≤ lo
    → hi ≤ hi'
    → ((q : Address) → q < hi → w q ≡ u q)
    → Within (between lo hi u) (between lo' hi' w)
Within-between lo lo' hi hi' u w a b same q c h =
    let (p, r, found) = between-inv lo hi u q c h in
    between-intro lo' hi' w q c (omega arith) (omega arith) (same q r ∙ found)

-- What lies between `lo` and the end of `h` lies there also behind the allocations.
pub Within-Extends :
    (lo : ℕ) (h h' : Heap)
    → Extends h h'
    → Within (between lo h.next h.cell) (between lo h'.next h'.cell)
Within-Extends lo h h' e =
    Within-between lo lo h.next h'.next h.cell h'.cell (omega arith) e.later e.kept

-- What lies between the ends of `h` and `h'` lies behind any earlier end.
pub Within-earlier :
    (h0 h h' : Heap)
    → Extends h0 h
    → Within (between h.next h'.next h'.cell) (between h0.next h'.next h'.cell)
Within-earlier h0 h h' e =
    Within-between h.next h0.next h'.next h'.next h'.cell h'.cell e.later (omega arith)
      (λ q lt. refl)

pub new-Extends :
    (h : Heap) (c : Cell) → Extends h (record { next = suc h.next; cell = put h.cell h.next c })
new-Extends h c = record { later = omega arith; kept = λ q lt. ground arith }

pub new-between :
    (lo : ℕ) (h : Heap) (c : Cell)
    → lo ≤ h.next
    → between lo (suc h.next) (put h.cell h.next c) h.next ≡ some c
new-between lo h c le =
    between-intro lo (suc h.next) (put h.cell h.next c) h.next c le (omega arith) (ground arith)

put-below : (u : Cells) (q j : Address) (c : Cell) → j < q → put u q c j ≡ u j
put-below u q j c lt = ground arith

put-above : (u : Cells) (q j : Address) (c : Cell) → q < j → put u q c j ≡ u j
put-above u q j c lt = ground arith

-- A write before a region leaves it, and so does one behind it.
pub Within-put-before :
    (lo hi : ℕ) (u : Cells) (q : Address) (c : Cell)
    → q < lo
    → Within (between lo hi u) (between lo hi (put u q c))
Within-put-before lo hi u q c lt j d h =
    let (a, b, found) = between-inv lo hi u j d h in
    between-intro lo hi (put u q c) j d a b (put-above u q j c (omega arith) ∙ found)

pub Within-put-behind :
    (lo hi : ℕ) (u : Cells) (q : Address) (c : Cell)
    → hi ≤ q
    → Within (between lo hi u) (between lo hi (put u q c))
Within-put-behind lo hi u q c le j d h =
    let (a, b, found) = between-inv lo hi u j d h in
    between-intro lo hi (put u q c) j d a b (put-below u q j c (omega arith) ∙ found)
