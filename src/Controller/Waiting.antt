-- ===== src/Controller/Waiting.antt =====
-- Pipelines whose stages do not stand behind what they depend on.
use cluster.Prelude.{
  Str, ℕ, zero, suc, true, List, [], ◌∷◌, set, ◌≡◌, ◌≢◌, refl, sym, subst, inl, inr,
}
use cluster.Api.{PipelinePhase, StageSpec, StageStatus, AgentPipelineStatus, AgentPipeline}
use cluster.Controller.Env.{Env, ObjectKey, FinalizerLaws, Trace}
use cluster.Controller.Stages.{
  stage, find_current_stage, completed_stages, all_in, are_dependencies_met,
}
use cluster.Controller.Reconciler.{reconcile}
use cluster.Controller.Server.{stored, IsConsistent, passes}
use cluster.Controller.Steps.{
  IsNew, StatusStep, start, reject, move, finish, give_up, Step, idle, adorn, release, advance,
}
use cluster.Controller.Progress.{Progress}
use cluster.Controller.Current.{AllDone-find_loop}
use cluster.Controller.Dependencies.{Ordered}
use cluster.Controller.Invariant.{Fits, ValidAt, IsValid, in_phase, finished, Step-IsValid}
use cluster.Controller.Refinement.{reconcile-Step}
use cluster.Controller.Earned.{
  InOrder, Ordered-InOrder, Earned, init_stages-Earned, AllDone-Ordered, set-Earned,
}

met-all_in :
    (p : AgentPipeline) (s : StageSpec)
    → are_dependencies_met p s ≡ true
    → all_in (completed_stages p.status.stages) s.depends_on ≡ true
unfolding are_dependencies_met all_in
met-all_in p s = met s.depends_on refl
  where
    met :
        (deps : List Str)
        → s.depends_on ≡ deps
        → are_dependencies_met p s ≡ true
        → all_in (completed_stages p.status.stages) s.depends_on ≡ true
    met [] e = rw (e, are_dependencies_met) (λ _. refl)
    met (d ∷ ds) e = rw (e, are_dependencies_met) (λ h. h)

-- What a pipeline with the stages `specs` has earned in its phase.
record HasEarned (specs : List StageSpec) (p : AgentPipeline) : Type 0 where
  same : p.spec.stages ≡ specs
  running : p.status.phase ≡ PipelinePhase.running → Earned [] specs p.status.stages
  completed : p.status.phase ≡ PipelinePhase.completed → Ordered [] specs

module _ (specs : List StageSpec) (p : AgentPipeline) (v : IsValid p)
    (has : HasEarned specs p) where
  open p use {meta, spec, status}

  earned : status.phase ≡ PipelinePhase.running → Earned [] spec.stages status.stages
  earned h = subst (λ ss. Earned [] ss status.stages) (sym has.same) (has.running h)

  moved-Earned :
      (i : ℕ) (s : StageSpec) (c c' : StageStatus)
      → status.phase ≡ PipelinePhase.running
      → find_current_stage p ≡ stage i s c
      → are_dependencies_met p s ≡ true
      → Progress meta.name spec.retry_policy spec.stages status.stages
      → Earned [] spec.stages (set status.stages i c')
  unfolding find_current_stage
  moved-Earned i s c c' running current met (inl all) =
      cc (AllDone-find_loop meta.name spec.retry_policy spec.stages status.stages all)
  moved-Earned i s c c' running current met (inr at) =
      set-Earned meta.name spec.retry_policy [] spec.stages status.stages i s c c' at current
        (met-all_in p s met) (earned running)

  -- A move of the status keeps what is earned.
  StatusStep-running :
      {st : AgentPipelineStatus}
      → StatusStep p st
      → st.phase ≡ PipelinePhase.running
      → Earned [] spec.stages st.stages
  StatusStep-running (start first rest new listed phase current stages) h =
      subst (Earned [] spec.stages) (sym stages) (init_stages-Earned [] spec.stages)
  StatusStep-running (reject new empty phase stages) h = cc
  StatusStep-running (move i s c c' running current met m phase stages) h =
      subst (Earned [] spec.stages) (sym stages)
        (moved-Earned i s c c' running current met (in_phase p v running))
  StatusStep-running (finish running done phase stages) h = cc
  StatusStep-running (give_up i s c running current met failed over phase stages) h = cc

  StatusStep-completed :
      {st : AgentPipelineStatus}
      → StatusStep p st
      → st.phase ≡ PipelinePhase.completed
      → Ordered [] spec.stages
  StatusStep-completed (start first rest new listed phase current stages) h = cc
  StatusStep-completed (reject new empty phase stages) h = cc
  StatusStep-completed (move i s c c' running current met m phase stages) h = cc
  StatusStep-completed {st} (finish running done phase stages) h =
      AllDone-Ordered meta.name spec.retry_policy [] spec.stages status.stages
        (finished p v done (in_phase p v running)) (earned running)
  StatusStep-completed (give_up i s c running current met failed over phase stages) h = cc

  Step-HasEarned : {env : Env} {q : AgentPipeline} → Step env p q → HasEarned specs q
  Step-HasEarned (idle why e) = subst (HasEarned specs) (sym e) has
  Step-HasEarned (adorn new alive free e) =
      subst (HasEarned specs) (sym e)
        (record { same = has.same; running = has.running; completed = has.completed })
  Step-HasEarned (release deleted held e) =
      subst (HasEarned specs) (sym e)
        (record { same = has.same; running = has.running; completed = has.completed })
  Step-HasEarned (advance st alive held m e) = subst (HasEarned specs) (sym e) (record {
    same = has.same;
    running = λ h. subst (λ ss. Earned [] ss st.stages) has.same (StatusStep-running m h);
    completed = λ h. subst (Ordered []) has.same (StatusStep-completed m h);
  })

passes-HasEarned :
    (env : Env) (key : ObjectKey) (p0 : AgentPipeline) (n : ℕ) (t : Trace) (specs : List StageSpec)
    → FinalizerLaws env
    → IsConsistent env key p0
    → IsValid (stored p0 t)
    → HasEarned specs (stored p0 t)
    → HasEarned specs (stored p0 (passes env key n t))
unfolding passes
passes-HasEarned env key p0 zero t specs laws reads v has = has
passes-HasEarned env key p0 (suc n) t specs laws reads v has =
    let step = reconcile-Step env key p0 t reads in
    passes-HasEarned env key p0 n (reconcile env key t).1 specs laws reads
      (Step-IsValid laws step v) (Step-HasEarned specs (stored p0 t) v has step)

IsNew-ValidAt :
    (p : AgentPipeline)
    → IsNew p.status.phase
    → ValidAt p.status.phase p.meta.name p.spec p.status.stages
IsNew-ValidAt p (inl h) = subst (λ x. ValidAt x p.meta.name p.spec p.status.stages) (sym h) tt
IsNew-ValidAt p (inr h) = subst (λ x. ValidAt x p.meta.name p.spec p.status.stages) (sym h) tt

-- A pipeline that has not begun, whose retry limits are values of `int32`, and some stage of which
-- depends on a name that no stage before it has, its own or that of a later one included, is never
-- Completed, after any number of passes, whatever the agents answer and whichever writes are
-- refused, as long as it is read as it is stored.
pub passes-never_completed :
    (env : Env) (key : ObjectKey) (p0 : AgentPipeline) (n : ℕ) (t : Trace)
    → FinalizerLaws env
    → IsConsistent env key p0
    → Fits (stored p0 t).spec.retry_policy (stored p0 t).spec.stages
    → IsNew (stored p0 t).status.phase
    → ¬ InOrder [] (stored p0 t).spec.stages
    → (stored p0 (passes env key n t)).status.phase ≢ PipelinePhase.completed
passes-never_completed env key p0 n t laws reads fits new unordered done =
    let p = stored p0 t in
    let v : IsValid p = record { fits = fits; stages = IsNew-ValidAt p new } in
    let at_first : HasEarned p.spec.stages p = record {
      same = refl;
      running = λ h. elim new [ inl e ↦ cc | inr e ↦ cc ];
      completed = λ h. elim new [ inl e ↦ cc | inr e ↦ cc ];
    } in
    let has = passes-HasEarned env key p0 n t p.spec.stages laws reads v at_first in
    unordered (Ordered-InOrder [] p.spec.stages (has.completed done))
