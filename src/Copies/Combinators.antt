-- ===== src/Copies/Combinators.antt =====
-- Deep copies in general: what one is, and how copies of parts make a copy of the whole.
use cluster.Prelude.{suc, Option, some, ◌≡◌, refl, sym, subst, ◌∙◌, arith}
use cluster.Copies.Memory.{Cell, Cells, Heap, M, ◌>>=◌, pure, load, put, new}
use cluster.Copies.Copy.{copy_new}
use cluster.Copies.Denotation.{Denotes, Same, At}
use cluster.Copies.Regions.{
  between, between-inv, Within, Extends, Extends-refl, Extends-trans, Within-Extends,
  Within-earlier, new-Extends, new-between,
}

-- `y`, which lies wholly in memory that `h` had not used, stands for `v`, and nothing that `h` had
-- used has changed.
abbrev pub Fresh : {G A : Type 0} → Denotes G A → Heap → A → G → Heap → Type 0
Fresh R h v y h' = R (between h.next h'.next h'.cell) y v × Extends h h'

-- `f` copies what stands for a value, where that lies in used memory, to fresh memory.
pub record Copies {G A : Type 0} (R : Denotes G A) (f : G → M G) : Type 0 where
  pub widens : (u w : Cells) (x : G) (v : A) → Within u w → R u x v → R w x v
  pub copied :
      (h : Heap) (x : G) (v : A)
      → R (between 0 h.next h.cell) x v
      → (y : G) × (h' : Heap) × (f x h ≡ some (y, h')) × Fresh R h v y h'

pub Copies-Same : {A : Type 0} → Copies {A = A} Same pure
Copies-Same = record {
  widens = λ u w x v sub r. r;
  copied = λ h x v r. (x, h, refl, (r, Extends-refl h));
}

-- The same copy, written in another way, with the relation written in another way.
pub Copies-like :
    {G A : Type 0} {R R' : Denotes G A} {f f' : G → M G}
    → Copies R f
    → ((u : Cells) (x : G) (v : A) → R u x v → R' u x v)
    → ((u : Cells) (x : G) (v : A) → R' u x v → R u x v)
    → ((x : G) (h : Heap) → f' x h ≡ f x h)
    → Copies R' f'
Copies-like law there back same = record {
  widens = λ u w x v sub r. there w x v (law.widens u w x v sub (back u x v r));
  copied = λ h x v r.
      let (y, h', e, (r', ext)) = law.copied h x v (back _ x v r) in
      (y, h', same x h ∙ e, (there _ y v r', ext));
}

abbrev pub both : {G G' : Type 0} → (G → M G) → (G' → M G') → G × G' → M (G × G')
both f f' x = do y ← f x.0; y' ← f' x.1; pure (y, y')

abbrev pub Both : {G A G' A' : Type 0} → Denotes G A → Denotes G' A' → Denotes (G × G') (A × A')
Both R R' u x v = R u x.0 v.0 × R' u x.1 v.1

pub Copies-both :
    {G A G' A' : Type 0} {R : Denotes G A} {R' : Denotes G' A'} {f : G → M G} {f' : G' → M G'}
    → Copies R f
    → Copies R' f'
    → Copies (Both R R') (both f f')
Copies-both {f} {f'} law law' = record {
  widens = λ u w x v sub r. (law.widens u w x.0 v.0 sub r.0, law'.widens u w x.1 v.1 sub r.1);
  copied = λ h x v r.
      let (y, h1, e, (fresh, ext)) = law.copied h x.0 v.0 r.0 in
      let (y', h2, e', (fresh', ext')) =
        law'.copied h1 x.1 v.1 (law'.widens _ _ x.1 v.1 (Within-Extends 0 h h1 ext) r.1) in
      (
        (y, y'),
        h2,
        rw (e, e', ◌>>=◌) refl,
        (
          (
            law.widens _ _ y v.0 (Within-Extends h.next h1 h2 ext') fresh,
            law'.widens _ _ y' v.1 (Within-earlier h h1 h2 ext) fresh',
          ),
          Extends-trans h h1 h2 ext ext',
        ),
      );
}

-- A struct whose fields with pointers are `to` and come back by `from`.
pub Copies-struct :
    {G P A B : Type 0} {R : Denotes P B} {f : P → M P} (to : G → P) (from : G → P → G)
    (view : A → B) (Values : G → A → Type 0)
    → Copies R f
    → ((x : G) (y : P) (v : A) → Values x v → Values (from x y) v)
    → ((x : G) (y : P) → to (from x y) ≡ y)
    → Copies (λ u x v. R u (to x) (view v) × Values x v) (λ x. do y ← f (to x); pure (from x y))
Copies-struct {R = R} to from view Values law keep back = record {
  widens = λ u w x v sub r. (law.widens u w (to x) (view v) sub r.0, r.1);
  copied = λ h x v r.
      let (y, h', e, (fresh, ext)) = law.copied h (to x) (view v) r.0 in
      (
        from x y,
        h',
        rw (e, ◌>>=◌) refl,
        (
          (
            subst (λ z. R (between h.next h'.next h'.cell) z (view v)) (sym (back x y)) fresh,
            keep x y v r.1,
          ),
          ext,
        ),
      );
}

pub Copies-copy_new :
    {G A : Type 0} {R : Denotes G A} {into : G → M G} (read_as : Cell → Option G) (cell : G → Cell)
    → ((x : G) → read_as (cell x) ≡ some x)
    → Copies R into
    → Copies (At read_as R) (copy_new read_as cell into)
unfolding copy_new load new
Copies-copy_new {R = R} {into = into} read_as cell inverse law = record {
  widens = λ u w q v sub (c, x, there, is, r). (c, x, sub q c there, is, law.widens u w x v sub r);
  copied = λ h q v (c, x, there, is, r).
      let (y, h1, e, (fresh, ext)) = law.copied h x v r in
      let h2 : Heap = record { next = suc h1.next; cell = put h1.cell h1.next (cell y) } in
      let loaded : load read_as q h ≡ some (x, h) =
        rw ((between-inv 0 h.next h.cell q c there).2, load) (rw is refl) in
      (
        h1.next,
        h2,
        rw (loaded, e, ◌>>=◌) refl,
        (
          (
            cell y,
            y,
            new-between h.next h1 (cell y) ext.later,
            inverse y,
            law.widens _ _ y v (Within-Extends h.next h1 h2 (new-Extends h1 (cell y))) fresh,
          ),
          Extends-trans h h1 h2 ext (new-Extends h1 (cell y)),
        ),
      );
}

-- Three copies one behind the other.
pub both-both :
    {A B C D : Type 0} (f : A → M A) (g : B → M B) (k : C → M C) (from : A × (B × C) → D) (a : A)
    (b : B) (c : C) (h : Heap)
    → (do x ← f a; y ← g b; z ← k c; pure (from (x, (y, z)))) h
      ≡ (do y ← both f (both g k) (a, (b, c)); pure (from y)) h
both-both f g k from a b c h = ground arith
