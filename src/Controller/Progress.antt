-- ===== src/Controller/Progress.antt =====
-- How far the stages of a running pipeline are: a run of completed stages, then at most one stage
-- that is pending or failed, then stages that have not begun.
use cluster.Prelude.{
  Str, ℤ, pos, pos_part, ltb_ℤ, incr_int32, incr_int32_exact, max_int32, ℕ, ◌+◌, ◌≤◌, true, false,
  Option, List, [], ◌∷◌, ◌≡◌, refl, sym, ap, ◌∙◌, ◌⊎◌, inl, inr, arith,
}
use cluster.Api.{StagePhase, StageSpec, StageStatus, RetryPolicy}
use cluster.Controller.Stages.{init_stage, init_stages, effective_policy, output_config_map_name}

abbrev pub Statuses : Type 0
Statuses = List StageStatus

-- The retries used are at least 0 and at most what the policy allows.
pub record Within (max : ℤ) (c : StageStatus) : Type 0 where
  pub used : ℕ
  pub count : c.retry_count ≡ pos used
  pub bound : used ≤ pos_part max

-- A retry that the policy allows stays within it, and does not wrap.
pub Within-retry :
    (max : ℤ) (c c' : StageStatus)
    → pos_part max ≤ max_int32
    → Within max c
    → ltb_ℤ c.retry_count max ≡ true
    → c'.retry_count ≡ incr_int32 c.retry_count
    → Within max c'
Within-retry max c c' fits w more k =
    let more' : ltb_ℤ (pos w.used) max ≡ true = ap (λ n. ltb_ℤ n max) (sym w.count) ∙ more in
    record {
      used = w.used + 1;
      count = k ∙ ap incr_int32 w.count ∙ incr_int32_exact w.used max fits more';
      bound = ground arith;
    }

-- The retry limit of a stage.
abbrev pub max_of : Option RetryPolicy → StageSpec → ℤ
max_of fallback s = (effective_policy fallback s).max_retries

module _ (pipeline_name : Str) (fallback : Option RetryPolicy) where
  pub record Done (s : StageSpec) (c : StageStatus) : Type 0 where
    pub name : c.name ≡ s.name
    pub phase : c.phase ≡ StagePhase.completed
    pub output_ref : c.output_ref ≡ output_config_map_name pipeline_name s.name
    pub within : Within (max_of fallback s) c

  pub record Active (s : StageSpec) (c : StageStatus) : Type 0 where
    pub name : c.name ≡ s.name
    pub phase : (c.phase ≡ StagePhase.pending) ⊎ (c.phase ≡ StagePhase.failed)
    pub within : Within (max_of fallback s) c

  -- A failed stage with no retry left.
  pub record Exhausted (s : StageSpec) (c : StageStatus) : Type 0 where
    pub name : c.name ≡ s.name
    pub phase : c.phase ≡ StagePhase.failed
    pub within : Within (max_of fallback s) c
    pub over : ltb_ℤ c.retry_count (max_of fallback s) ≡ false

  abbrev pub AllDone : List StageSpec → Statuses → Type 0
  AllDone [] [] = Unit
  AllDone [] (c ∷ cs) = ⊥
  AllDone (s ∷ ss) [] = ⊥
  AllDone (s ∷ ss) (c ∷ cs) = Done s c × AllDone ss cs

  -- All done up to one stage, of which `Q` holds; the stages behind it have not begun.
  abbrev pub StoppedAt : (StageSpec → StageStatus → Type 0) → List StageSpec → Statuses → Type 0
  StoppedAt Q [] cs = ⊥
  StoppedAt Q (s ∷ ss) [] = ⊥
  StoppedAt Q (s ∷ ss) (c ∷ cs) = (Q s c × (cs ≡ init_stages ss)) ⊎ (Done s c × StoppedAt Q ss cs)

  abbrev pub Progress : List StageSpec → Statuses → Type 0
  Progress ss cs = AllDone ss cs ⊎ StoppedAt Active ss cs

  pub init_stage-Active : (s : StageSpec) → Active s (init_stage s)
  init_stage-Active s = record {
    name = refl;
    phase = inl refl;
    within = record { used = 0; count = refl; bound = omega arith };
  }

  pub init_stages-Progress : (ss : List StageSpec) → Progress ss (init_stages ss)
  unfolding init_stages
  init_stages-Progress [] = inl tt
  init_stages-Progress (s ∷ ss) = inr (inl (init_stage-Active s, refl))

  -- Stages behind a done one may go on where there are any.
  pub behind-Done :
      (s : StageSpec) (c : StageStatus) (ss : List StageSpec) (cs : Statuses)
      → Done s c
      → Progress ss cs
      → Progress (s ∷ ss) (c ∷ cs)
  behind-Done s c ss cs d (inl all) = inl (d, all)
  behind-Done s c ss cs d (inr at) = inr (inr (d, at))
