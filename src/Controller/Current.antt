-- ===== src/Controller/Current.antt =====
-- The stage that `FindCurrentStage` finds among the stages of a pipeline in progress, and what
-- may take its place.
use cluster.Prelude.{
  Str, pos_part, max_int32, ℕ, suc, ◌≤◌, true, false, Option, none, some, List, [], ◌∷◌, set,
  get_elem?, ◌≡◌, ◌≢◌, refl, sym, ap, subst, ◌∙◌, ◌⊎◌, inl, inr, arith,
}
use cluster.Api.{StagePhase, StageSpec, StageStatus, RetryPolicy, is_open}
use cluster.Controller.Stages.{
  FoundStage, no_stage, stage, out_of_range, select, find_loop, init_stages, output_config_map_name,
}
use cluster.Controller.Steps.{StageStep, succeed, fail, retry}
use cluster.Controller.Progress.{
  Statuses, Within-retry, max_of, Done, Active, Exhausted, AllDone, StoppedAt, Progress,
  init_stages-Progress, behind-Done,
}

-- The index moves on with the list.
pub shift : FoundStage → FoundStage
shift no_stage = no_stage
shift out_of_range = out_of_range
shift (stage i s c) = stage (suc i) s c

select-shift :
    (i : ℕ) (o : Option StageSpec) (c : StageStatus) → select (suc i) o c ≡ shift (select i o c)
unfolding select shift
select-shift i none c = refl
select-shift i (some s) c = refl

find_loop-shift :
    (s : StageSpec) (ss : List StageSpec) (i : ℕ) (cs : Statuses)
    → find_loop (s ∷ ss) (suc i) cs ≡ shift (find_loop ss i cs)
unfolding find_loop shift
find_loop-shift s ss i [] = refl
find_loop-shift s ss i (c ∷ cs) =
    ground (arith, select-shift i (get_elem? ss i) c, find_loop-shift s ss (suc i) cs)

pub shift-no_stage : shift no_stage ≡ no_stage
unfolding shift
shift-no_stage = refl

pub shift-stage :
    (i : ℕ) (s : StageSpec) (c : StageStatus) → shift (stage i s c) ≡ stage (suc i) s c
unfolding shift
shift-stage i s c = refl

pub shift_inv :
    (f : FoundStage) {i : ℕ} {s : StageSpec} {c : StageStatus}
    → shift f ≡ stage i s c
    → (j : ℕ) × (i ≡ suc j) × (f ≡ stage j s c)
unfolding shift
shift_inv no_stage h = cc
shift_inv out_of_range h = cc
shift_inv (stage j s c) h = (j, ground arith, ground arith)

pub shift_no_stage : (f : FoundStage) → shift f ≡ no_stage → f ≡ no_stage
unfolding shift
shift_no_stage no_stage h = refl
shift_no_stage out_of_range h = cc
shift_no_stage (stage j s c) h = cc

pub shift_out_of_range : (f : FoundStage) → shift f ≡ out_of_range → f ≡ out_of_range
unfolding shift
shift_out_of_range no_stage h = cc
shift_out_of_range out_of_range h = refl
shift_out_of_range (stage j s c) h = cc

pub find_loop_open :
    (s : StageSpec) (ss : List StageSpec) (c : StageStatus) (cs : Statuses)
    → is_open c.phase ≡ true
    → find_loop (s ∷ ss) 0 (c ∷ cs) ≡ stage 0 s c
unfolding find_loop select
find_loop_open s ss c cs h = ground arith

pub find_loop_closed :
    (s : StageSpec) (ss : List StageSpec) (c : StageStatus) (cs : Statuses)
    → is_open c.phase ≡ false
    → find_loop (s ∷ ss) 0 (c ∷ cs) ≡ shift (find_loop ss 0 cs)
unfolding find_loop
find_loop_closed s ss c cs h = ground (arith, find_loop-shift s ss 0 cs)

pub is_open_of_phase :
    {phase : StagePhase}
    → (phase ≡ StagePhase.pending) ⊎ (phase ≡ StagePhase.failed)
    → is_open phase ≡ true
is_open_of_phase h = ground arith

module _ (pipeline_name : Str) (fallback : Option RetryPolicy) where
  -- The current stage among those of a pipeline in progress: what may take its place.
  pub record Current (ss : List StageSpec) (cs : Statuses) (i : ℕ) (s : StageSpec) (c : StageStatus)
      : Type 0 where
    pub in_spec : get_elem? ss i ≡ some s
    pub in_status : get_elem? cs i ≡ some c
    pub active : Active pipeline_name fallback s c
    pub still :
        (c' : StageStatus)
        → Active pipeline_name fallback s c'
        → StoppedAt pipeline_name fallback (Active pipeline_name fallback) ss (set cs i c')
    pub over :
        (c' : StageStatus)
        → Done pipeline_name fallback s c'
        → Progress pipeline_name fallback ss (set cs i c')
    pub stuck :
        Exhausted pipeline_name fallback s c
        → StoppedAt pipeline_name fallback (Exhausted pipeline_name fallback) ss cs

  pub AllDone-find_loop :
      (ss : List StageSpec) (cs : Statuses)
      → AllDone pipeline_name fallback ss cs
      → find_loop ss 0 cs ≡ no_stage
  unfolding find_loop shift
  AllDone-find_loop [] [] h = refl
  AllDone-find_loop [] (c ∷ cs) h = elim h [ ]
  AllDone-find_loop (s ∷ ss) [] h = elim h [ ]
  AllDone-find_loop (s ∷ ss) (c ∷ cs) h =
      find_loop_closed s ss c cs (ap is_open h.0.phase) ∙ ap shift (AllDone-find_loop ss cs h.1)

  abbrev CurrentAt : List StageSpec → Statuses → FoundStage → Type 0
  CurrentAt ss cs (stage i s c) = Current ss cs i s c
  CurrentAt ss cs no_stage = Unit
  CurrentAt ss cs out_of_range = Unit

  first-Current :
      (s : StageSpec) (c : StageStatus) (ss : List StageSpec) (cs : Statuses)
      → Active pipeline_name fallback s c
      → cs ≡ init_stages ss
      → Current (s ∷ ss) (c ∷ cs) 0 s c
  first-Current s c ss cs a fresh = record {
    in_spec = refl;
    in_status = refl;
    active = a;
    still = λ c' a'. inl (a', fresh);
    over = λ c' d. behind-Done pipeline_name fallback s c' ss cs d (
        subst (Progress pipeline_name fallback ss) (sym fresh)
          (init_stages-Progress pipeline_name fallback ss));
    stuck = λ e. inl (e, fresh);
  }

  behind-Current :
      (s₀ : StageSpec) (c₀ : StageStatus) (ss : List StageSpec) (cs : Statuses) (j : ℕ)
      (s : StageSpec) (c : StageStatus)
      → Done pipeline_name fallback s₀ c₀
      → Current ss cs j s c
      → Current (s₀ ∷ ss) (c₀ ∷ cs) (suc j) s c
  behind-Current s₀ c₀ ss cs j s c d k = record {
    in_spec = k.in_spec;
    in_status = k.in_status;
    active = k.active;
    still = λ c' a. inr (d, k.still c' a);
    over = λ c' a. behind-Done pipeline_name fallback s₀ c₀ ss (set cs j c') d (k.over c' a);
    stuck = λ e. inr (d, k.stuck e);
  }

  pub StoppedAt-Current :
      (ss : List StageSpec) (cs : Statuses) (i : ℕ) (s : StageSpec) (c : StageStatus)
      → StoppedAt pipeline_name fallback (Active pipeline_name fallback) ss cs
      → find_loop ss 0 cs ≡ stage i s c
      → Current ss cs i s c
  StoppedAt-Current [] cs i s c at h = elim at [ ]
  StoppedAt-Current (s₀ ∷ ss) [] i s c at h = elim at [ ]
  StoppedAt-Current (s₀ ∷ ss) (c₀ ∷ cs) i s c (inl (a, fresh)) h =
      subst (CurrentAt (s₀ ∷ ss) (c₀ ∷ cs))
        (sym (find_loop_open s₀ ss c₀ cs (is_open_of_phase a.phase)) ∙ h)
        (first-Current s₀ c₀ ss cs a fresh)
  StoppedAt-Current (s₀ ∷ ss) (c₀ ∷ cs) i s c (inr (d, at)) h =
      let (j, next, found) =
        shift_inv (find_loop ss 0 cs)
          (sym (find_loop_closed s₀ ss c₀ cs (ap is_open d.phase)) ∙ h) in
      subst (λ k. Current (s₀ ∷ ss) (c₀ ∷ cs) k s c) (sym next)
        (behind-Current s₀ c₀ ss cs j s c d (StoppedAt-Current ss cs j s c at found))

  -- A pipeline in progress with no open stage is done.
  pub StoppedAt-open :
      (ss : List StageSpec) (cs : Statuses)
      → StoppedAt pipeline_name fallback (Active pipeline_name fallback) ss cs
      → find_loop ss 0 cs ≢ no_stage
  StoppedAt-open [] cs at h = elim at [ ]
  StoppedAt-open (s ∷ ss) [] at h = elim at [ ]
  StoppedAt-open (s ∷ ss) (c ∷ cs) (inl (a, fresh)) h =
      cc (find_loop_open s ss c cs (is_open_of_phase a.phase))
  StoppedAt-open (s ∷ ss) (c ∷ cs) (inr (d, at)) h = StoppedAt-open ss cs at (
      shift_no_stage (find_loop ss 0 cs)
        (sym (find_loop_closed s ss c cs (ap is_open d.phase)) ∙ h))

  -- No index is out of range.
  pub StoppedAt-in_range :
      (ss : List StageSpec) (cs : Statuses)
      → StoppedAt pipeline_name fallback (Active pipeline_name fallback) ss cs
      → find_loop ss 0 cs ≢ out_of_range
  StoppedAt-in_range [] cs at h = elim at [ ]
  StoppedAt-in_range (s ∷ ss) [] at h = elim at [ ]
  StoppedAt-in_range (s ∷ ss) (c ∷ cs) (inl (a, fresh)) h =
      cc (find_loop_open s ss c cs (is_open_of_phase a.phase))
  StoppedAt-in_range (s ∷ ss) (c ∷ cs) (inr (d, at)) h = StoppedAt-in_range ss cs at (
      shift_out_of_range (find_loop ss 0 cs)
        (sym (find_loop_closed s ss c cs (ap is_open d.phase)) ∙ h))

  -- What a step of the current stage makes of it.
  pub StageStep-Active :
      (s : StageSpec) (c c' : StageStatus)
      → pos_part (max_of fallback s) ≤ max_int32
      → Active pipeline_name fallback s c
      → StageStep (output_config_map_name pipeline_name s.name) (max_of fallback s) c c'
      → Active pipeline_name fallback s c' ⊎ Done pipeline_name fallback s c'
  StageStep-Active s c c' fits a (succeed p q r n k) = inr (record {
    name = n ∙ a.name;
    phase = q;
    output_ref = r;
    within = record { used = a.within.used; count = k ∙ a.within.count; bound = a.within.bound };
  })
  StageStep-Active s c c' fits a (fail p q n k) = inl (record {
    name = n ∙ a.name;
    phase = inr q;
    within = record { used = a.within.used; count = k ∙ a.within.count; bound = a.within.bound };
  })
  StageStep-Active s c c' fits a (retry p more q n k) = inl (record {
    name = n ∙ a.name;
    phase = inl q;
    within = Within-retry _ c c' fits a.within more k;
  })
