-- ===== src/Controller/Dependencies.antt =====
-- Stages whose dependencies stand before them.
use cluster.Prelude.{
  Str, ℕ, true, Option, List, [], ◌∷◌, ◌++◌, append_assoc, append-nil, ◌≡◌, refl, sym, ap, subst,
  ◌∙◌, ◌⊎◌, inl, inr, arith,
}
use cluster.Api.{StagePhase, StageSpec, StageStatus, RetryPolicy, AgentPipeline}
use cluster.Controller.Stages.{
  stage, find_loop, find_current_stage, completed_stages, all_in, are_dependencies_met, init_stages,
}
use cluster.Controller.Progress.{Statuses, Active, StoppedAt, Progress}
use cluster.Controller.Current.{
  find_loop_open, find_loop_closed, shift_inv, is_open_of_phase, AllDone-find_loop,
}
use cluster.Api.{is_open}

-- Each stage depends on stages that stand before it, or are among `earlier`.
abbrev pub Ordered : List Str → List StageSpec → Type 0
Ordered earlier [] = Unit
Ordered earlier (s ∷ ss) =
    (all_in earlier s.depends_on ≡ true) × Ordered (earlier ++ (s.name ∷ [])) ss

pub completed_stages-init_stages : (ss : List StageSpec) → completed_stages (init_stages ss) ≡ []
unfolding completed_stages init_stages
completed_stages-init_stages [] = refl
completed_stages-init_stages (s ∷ ss) = completed_stages-init_stages ss

pub completed_stages_open :
    (c : StageStatus) (ss : List StageSpec) {cs : Statuses}
    → (c.phase ≡ StagePhase.pending) ⊎ (c.phase ≡ StagePhase.failed)
    → cs ≡ init_stages ss
    → completed_stages (c ∷ cs) ≡ []
unfolding completed_stages
completed_stages_open c ss h e = ground (arith, completed_stages-init_stages ss)

pub completed_stages_done :
    (c : StageStatus) (cs : Statuses)
    → c.phase ≡ StagePhase.completed
    → completed_stages (c ∷ cs) ≡ c.name ∷ completed_stages cs
unfolding completed_stages
completed_stages_done c cs h = ground arith

module _ (name : Str) (fallback : Option RetryPolicy) where
  all_in-current :
      (earlier : List Str) (ss : List StageSpec) (cs : Statuses) (i : ℕ) (s : StageSpec)
      (c : StageStatus)
      → Ordered earlier ss
      → StoppedAt name fallback (Active name fallback) ss cs
      → find_loop ss 0 cs ≡ stage i s c
      → all_in (earlier ++ completed_stages cs) s.depends_on ≡ true
  all_in-current earlier [] cs i s c o at h = elim at [ ]
  all_in-current earlier (s₀ ∷ ss) [] i s c o at h = elim at [ ]
  all_in-current earlier (s₀ ∷ ss) (c₀ ∷ cs) i s c o (inl (a, fresh)) h =
      let same : s₀ ≡ s = cc (find_loop_open s₀ ss c₀ cs (is_open_of_phase a.phase)) in
      rw (completed_stages_open c₀ ss a.phase fresh, append-nil)
        (subst (λ (r : StageSpec). all_in earlier r.depends_on ≡ true) same o.0)
  all_in-current earlier (s₀ ∷ ss) (c₀ ∷ cs) i s c o (inr (d, at)) h =
      let (j, next, found) =
        shift_inv (find_loop ss 0 cs)
          (sym (find_loop_closed s₀ ss c₀ cs (ap is_open d.phase)) ∙ h) in
      rw
        (
          completed_stages_done c₀ cs d.phase,
          d.name,
          ← append_assoc earlier (s₀.name ∷ []) (completed_stages cs),
        )
        (all_in-current (earlier ++ (s₀.name ∷ [])) ss cs j s c o.1 at found)

  -- The current stage of a pipeline in progress has its dependencies completed.
  pub Ordered-are_dependencies_met :
      (p : AgentPipeline) (i : ℕ) (s : StageSpec) (c : StageStatus)
      → Ordered [] p.spec.stages
      → Progress name fallback p.spec.stages p.status.stages
      → find_current_stage p ≡ stage i s c
      → are_dependencies_met p s ≡ true
  unfolding find_current_stage are_dependencies_met
  Ordered-are_dependencies_met p i s c o (inl all) h =
      cc (AllDone-find_loop name fallback p.spec.stages p.status.stages all)
  Ordered-are_dependencies_met p i s c o (inr at) h =
      ground (arith, all_in-current [] p.spec.stages p.status.stages i s c o at h)
