-- ===== src/Controller/Earned.antt =====
-- What the stages depend on that are completed.
use cluster.Prelude.{
  Str, str_eq, str_eq_iff, ℕ, true, Option, List, [], ◌∷◌, ◌++◌, append_assoc, append-nil, set, ◌≡◌,
  sym, ap, subst, ◌∙◌, ◌⊎◌, inl, inr, arith, Bool-cases,
}
use cluster.Api.{StagePhase, StageSpec, StageStatus, RetryPolicy, is_open}
use cluster.Controller.Stages.{stage, find_loop, completed_stages, contains, all_in, init_stages}
use cluster.Controller.Progress.{Statuses, Active, AllDone, StoppedAt}
use cluster.Controller.Current.{find_loop_open, find_loop_closed, shift_inv, is_open_of_phase}
use cluster.Controller.Dependencies.{Ordered, completed_stages_open, completed_stages_done}

abbrev pub IsAmong : Str → List Str → Type 0
IsAmong d [] = ⊥
IsAmong d (x ∷ xs) = (x ≡ d) ⊎ IsAmong d xs

abbrev pub AllAmong : List Str → List Str → Type 0
AllAmong [] earlier = Unit
AllAmong (d ∷ ds) earlier = IsAmong d earlier × AllAmong ds earlier

-- Each stage depends on names that are among `earlier` or those of the stages before it.
abbrev pub InOrder : List Str → List StageSpec → Type 0
InOrder earlier [] = Unit
InOrder earlier (s ∷ ss) = AllAmong s.depends_on earlier × InOrder (earlier ++ (s.name ∷ [])) ss

contains-IsAmong : (xs : List Str) (d : Str) → contains xs d ≡ true → IsAmong d xs
unfolding contains
contains-IsAmong [] d h = cc
contains-IsAmong (x ∷ xs) d h = elim (Bool-cases (str_eq x d)) [
  | inl same ↦ inl ((str_eq_iff x d).0 same)
  | inr other ↦ inr (contains-IsAmong xs d (ground arith))
]

all_in-AllAmong : (earlier deps : List Str) → all_in earlier deps ≡ true → AllAmong deps earlier
unfolding all_in
all_in-AllAmong earlier [] h = tt
all_in-AllAmong earlier (d ∷ ds) h =
    (contains-IsAmong earlier d (ground arith), all_in-AllAmong earlier ds (ground arith))

pub Ordered-InOrder :
    (earlier : List Str) (ss : List StageSpec) → Ordered earlier ss → InOrder earlier ss
Ordered-InOrder earlier [] o = tt
Ordered-InOrder earlier (s ∷ ss) (h, o) =
    (all_in-AllAmong earlier s.depends_on h, Ordered-InOrder (earlier ++ (s.name ∷ [])) ss o)

-- The completed stages depend on names that are among `earlier` or those of the stages before.
abbrev pub Earned : List Str → List StageSpec → Statuses → Type 0
Earned earlier [] cs = Unit
Earned earlier (s ∷ ss) [] = Unit
Earned earlier (s ∷ ss) (c ∷ cs) =
    (c.phase ≡ StagePhase.completed → all_in earlier s.depends_on ≡ true)
    × Earned (earlier ++ (s.name ∷ [])) ss cs

pub init_stages-Earned :
    (earlier : List Str) (ss : List StageSpec) → Earned earlier ss (init_stages ss)
unfolding init_stages
init_stages-Earned earlier [] = tt
init_stages-Earned earlier (s ∷ ss) = (λ h. cc h, init_stages-Earned (earlier ++ (s.name ∷ [])) ss)

module _ (name : Str) (fallback : Option RetryPolicy) where
  pub AllDone-Ordered :
      (earlier : List Str) (ss : List StageSpec) (cs : Statuses)
      → AllDone name fallback ss cs
      → Earned earlier ss cs
      → Ordered earlier ss
  AllDone-Ordered earlier [] cs all e = tt
  AllDone-Ordered earlier (s ∷ ss) [] all e = elim all [ ]
  AllDone-Ordered earlier (s ∷ ss) (c ∷ cs) (d, all) (h, e) =
      (h d.phase, AllDone-Ordered (earlier ++ (s.name ∷ [])) ss cs all e)

  -- The current stage may be given anew if its dependencies are completed.
  pub set-Earned :
      (earlier : List Str) (ss : List StageSpec) (cs : Statuses) (i : ℕ) (s : StageSpec)
      (c c' : StageStatus)
      → StoppedAt name fallback (Active name fallback) ss cs
      → find_loop ss 0 cs ≡ stage i s c
      → all_in (earlier ++ completed_stages cs) s.depends_on ≡ true
      → Earned earlier ss cs
      → Earned earlier ss (set cs i c')
  set-Earned earlier [] cs i s c c' at h met e = elim at [ ]
  set-Earned earlier (s₀ ∷ ss) [] i s c c' at h met e = elim at [ ]
  set-Earned earlier (s₀ ∷ ss) (c₀ ∷ cs) i s c c' (inl (a, fresh)) h met (e₀, e) =
      let first = find_loop_open s₀ ss c₀ cs (is_open_of_phase a.phase) in
      let same : s₀ ≡ s = cc first in
      let index : i ≡ 0 = cc first in
      let met' : all_in earlier s₀.depends_on ≡ true =
        subst (λ (r : StageSpec). all_in earlier r.depends_on ≡ true) (sym same)
          (subst (λ xs. all_in xs s.depends_on ≡ true)
            (ap (λ xs. earlier ++ xs) (completed_stages_open c₀ ss a.phase fresh)
              ∙ append-nil earlier)
            met) in
      subst (λ j. Earned earlier (s₀ ∷ ss) (set (c₀ ∷ cs) j c')) (sym index) (λ _. met', e)
  set-Earned earlier (s₀ ∷ ss) (c₀ ∷ cs) i s c c' (inr (d, at)) h met (e₀, e) =
      let (j, next, found) =
        shift_inv (find_loop ss 0 cs)
          (sym (find_loop_closed s₀ ss c₀ cs (ap is_open d.phase)) ∙ h) in
      let names : completed_stages (c₀ ∷ cs) ≡ s₀.name ∷ completed_stages cs =
        completed_stages_done c₀ cs d.phase ∙ ap (λ x. x ∷ completed_stages cs) d.name in
      let met' : all_in ((earlier ++ (s₀.name ∷ [])) ++ completed_stages cs) s.depends_on ≡ true =
        rw (append_assoc earlier (s₀.name ∷ []) (completed_stages cs), ← names) met in
      subst (λ k. Earned earlier (s₀ ∷ ss) (set (c₀ ∷ cs) k c')) (sym next)
        (e₀, set-Earned (earlier ++ (s₀.name ∷ [])) ss cs j s c c' at found met' e)
