-- ===== src/Controller/Durable.antt =====
-- The statuses of completed stages over passes of the reconciler.
use cluster.Prelude.{
  ℕ, zero, suc, ◌+◌, Bool, true, false, some, List, [], ◌∷◌, ◌++◌, length, get_elem?, set, ◌≡◌,
  refl, sym, ap, subst, ◌∙◌, inl, inr, arith,
}
use cluster.Api.{PipelinePhase, StageSpec, StageStatus, AgentPipelineStatus, AgentPipeline, is_open}
use cluster.Controller.Env.{Env, ObjectKey, Trace}
use cluster.Controller.Stages.{FoundStage, stage}
use cluster.Controller.Reconciler.{reconcile}
use cluster.Controller.Server.{stored, IsConsistent, passes}
use cluster.Controller.Steps.{
  IsNew, StatusStep, start, reject, move, finish, give_up, Step, idle, adorn, release, advance,
}
use cluster.Controller.Selection.{Finds, none_open, first_open, no_spec, find_current_stage-Finds}
use cluster.Controller.Refinement.{reconcile-Step}

set_open :
    (front back : List StageStatus) (c c' d : StageStatus) (j : ℕ)
    → is_open c.phase ≡ true
    → is_open d.phase ≡ false
    → get_elem? (front ++ (c ∷ back)) j ≡ some d
    → get_elem? (set (front ++ (c ∷ back)) (length front) c') j ≡ some d
set_open [] back c c' d zero o e h =
    let same : c ≡ d = cc in cc (ap (λ (x : StageStatus). is_open x.phase) same)
set_open [] back c c' d (suc j) o e h = h
set_open (x ∷ front) back c c' d zero o e h = h
set_open (x ∷ front) back c c' d (suc j) o e h = set_open front back c c' d j o e h

-- A write at the current stage leaves the stages that are not open.
set_current :
    (p : AgentPipeline) (i j : ℕ) (s : StageSpec) (c c' d : StageStatus) {found : FoundStage}
    → Finds p.spec.stages 0 p.status.stages found
    → found ≡ stage i s c
    → is_open d.phase ≡ false
    → get_elem? p.status.stages j ≡ some d
    → get_elem? (set p.status.stages i c') j ≡ some d
set_current p i j s c c' d (none_open _) f e h = cc
set_current p i j s c c' d (no_spec _ _ _ _ _ _ _) f e h = cc
set_current p i j s c c' d (first_open front back s₀ c₀ split closed o at f₀) f e h =
    let here : 0 + length front ≡ i = cc in
    let index : length front ≡ i = omega arith in
    subst (λ k. get_elem? (set p.status.stages k c') j ≡ some d) index
      (subst (λ cs. get_elem? (set cs (length front) c') j ≡ some d) (sym split)
        (set_open front back c₀ c' d j o e (sym (ap (λ cs. get_elem? cs j) split) ∙ h)))

abbrev pub is_begun : PipelinePhase → Bool
is_begun PipelinePhase.unset = false
is_begun PipelinePhase.pending = false
is_begun _ = true

IsNew-is_begun : {phase : PipelinePhase} → IsNew phase → is_begun phase ≡ true → ⊥
IsNew-is_begun (inl e) h = cc (ap is_begun e)
IsNew-is_begun (inr e) h = cc (ap is_begun e)

-- A pipeline that has begun, with `d` at index `j` of its stages.
pub record Holds (j : ℕ) (d : StageStatus) (p : AgentPipeline) : Type 0 where
  pub begun : is_begun p.status.phase ≡ true
  pub there : get_elem? p.status.stages j ≡ some d

module _ (j : ℕ) (d : StageStatus) (closed : is_open d.phase ≡ false) where
  held_at :
      (p : AgentPipeline) {st : AgentPipelineStatus} {phase : PipelinePhase}
      → st.phase ≡ phase
      → is_begun phase ≡ true
      → get_elem? st.stages j ≡ some d
      → Holds j d (record p { status = st })
  held_at p e old h = record { begun = ap is_begun e ∙ old; there = h }

  StatusStep-Holds :
      {p : AgentPipeline} {st : AgentPipelineStatus}
      → StatusStep p st
      → Holds j d p
      → Holds j d (record p { status = st })
  StatusStep-Holds (start first rest new listed phase named stages) h =
      absurd (IsNew-is_begun new h.begun)
  StatusStep-Holds (reject new empty phase stages) h = absurd (IsNew-is_begun new h.begun)
  StatusStep-Holds {p} (move i s c c' running current met m phase stages) h = held_at p phase refl (
      ap (λ cs. get_elem? cs j) stages
      ∙ set_current p i j s c c' d (find_current_stage-Finds p) current closed h.there)
  StatusStep-Holds {p} (finish running none_left phase stages) h =
      held_at p phase refl (ap (λ cs. get_elem? cs j) stages ∙ h.there)
  StatusStep-Holds {p} (give_up i s c running current met failed over phase stages) h =
      held_at p phase refl (ap (λ cs. get_elem? cs j) stages ∙ h.there)

  Step-Holds : {env : Env} {p q : AgentPipeline} → Step env p q → Holds j d p → Holds j d q
  Step-Holds (idle why e) h = subst (Holds j d) (sym e) h
  Step-Holds (adorn new alive free e) h = absurd (IsNew-is_begun new h.begun)
  Step-Holds (release deleted held e) h =
      subst (Holds j d) (sym e) (record { begun = h.begun; there = h.there })
  Step-Holds (advance st alive held m e) h = subst (Holds j d) (sym e) (StatusStep-Holds m h)

-- A stage that is Completed or Skipped in a pipeline that has begun keeps its status, with its
-- output, its times and its task, through any number of passes over the pipeline, read as it is stored,
-- whatever else the world answers.
pub passes-Holds :
    (env : Env) (key : ObjectKey) (p0 : AgentPipeline) (n : ℕ) (t : Trace) (j : ℕ) (d : StageStatus)
    → IsConsistent env key p0
    → is_open d.phase ≡ false
    → Holds j d (stored p0 t)
    → Holds j d (stored p0 (passes env key n t))
unfolding passes
passes-Holds env key p0 zero t j d reads closed h = h
passes-Holds env key p0 (suc n) t j d reads closed h =
    passes-Holds env key p0 n (reconcile env key t).1 j d reads closed
      (Step-Holds j d closed (reconcile-Step env key p0 t reads) h)
