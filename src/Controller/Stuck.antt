-- ===== src/Controller/Stuck.antt =====
-- A pipeline whose current stage waits for a dependency.
use cluster.Prelude.{
  pos, Str, ℕ, zero, suc, ◌+◌, true, false, not, none, some, List, [], ◌∷◌, ◌++◌, length, get_elem?,
  ◌≡◌, refl, sym, ap, subst, ◌∙◌, inl, inr, arith, Bool-cases, if◌then◌else◌,
}
use cluster.Api.{PipelinePhase, StageSpec, StageStatus, AgentPipeline, is_open}
use cluster.Controller.Env.{Env, ObjectKey, Trace, Call, pure, fetch}
use cluster.Controller.Stages.{stage, select, find_loop, find_current_stage, are_dependencies_met}
use cluster.Controller.Outcome.{Outcome, later, requeue_delay}
use cluster.Controller.Reconciler.{
  handle_stage, handle_current, handle_running, handle_phase, handle_unless_deleted, handle_found,
  handle_fetched, reconcile,
}
use cluster.Controller.Server.{stored, requests, IsConsistent, passes}
use cluster.Controller.Selection.{CompletedIn, AllCompleted, are_dependencies_met_iff, NoneOpen}
use cluster.Controller.Earned.{IsAmong}

-- The first stage that is neither Completed nor Skipped depends on a name that no completed stage
-- has.
pub record Waits (p : AgentPipeline) : Type 0 where
  pub alive : p.meta.deletion_timestamp ≡ none
  pub running : p.status.phase ≡ PipelinePhase.running
  pub front : List StageStatus
  pub current : StageStatus
  pub back : List StageStatus
  pub spec : StageSpec
  pub dependency : Str
  pub statuses : p.status.stages ≡ front ++ (current ∷ back)
  pub closed : NoneOpen front
  pub unfinished : is_open current.phase ≡ true
  pub in_spec : get_elem? p.spec.stages (length front) ≡ some spec
  pub needed : IsAmong dependency spec.depends_on
  pub missing : ¬ CompletedIn dependency p.status.stages

find_loop-NoneOpen :
    (specs : List StageSpec) (k : ℕ) (front back : List StageStatus) (s : StageSpec)
    (c : StageStatus)
    → NoneOpen front
    → is_open c.phase ≡ true
    → get_elem? specs (k + length front) ≡ some s
    → find_loop specs k (front ++ (c ∷ back)) ≡ stage (k + length front) s c
unfolding find_loop select
find_loop-NoneOpen specs k [] back s c closed h at = ground (arith, at)
find_loop-NoneOpen specs k (x ∷ front) back s c (shut, closed) h at =
    ground (arith, find_loop-NoneOpen specs (suc k) front back s c closed h (ground (arith, at)))

AllCompleted-IsAmong :
    (deps : List Str) (d : Str) (cs : List StageStatus)
    → AllCompleted deps cs
    → IsAmong d deps
    → CompletedIn d cs
AllCompleted-IsAmong [] d cs all among = elim among [ ]
AllCompleted-IsAmong (x ∷ deps) d cs (done, all) (inl same) =
    subst (λ n. CompletedIn n cs) same done
AllCompleted-IsAmong (x ∷ deps) d cs (done, all) (inr among) =
    AllCompleted-IsAmong deps d cs all among

module _ (p : AgentPipeline) (w : Waits p) where
  found_stage : find_current_stage p ≡ stage (length w.front) w.spec w.current
  unfolding find_current_stage
  found_stage =
      let same : 0 + length w.front ≡ length w.front = omega arith in
      ap (find_loop p.spec.stages 0) w.statuses
      ∙ find_loop-NoneOpen p.spec.stages 0 w.front w.back w.spec w.current w.closed w.unfinished
          (ap (get_elem? p.spec.stages) same ∙ w.in_spec)
      ∙ ap (λ k. stage k w.spec w.current) same

  unmet : are_dependencies_met p w.spec ≡ false
  unmet = elim (Bool-cases (are_dependencies_met p w.spec)) [
    | inl met ↦ absurd (
        w.missing (
          AllCompleted-IsAmong w.spec.depends_on w.dependency p.status.stages
            ((are_dependencies_met_iff p w.spec).0 met) w.needed))
    | inr h ↦ h
  ]

  handle_found-Waits : (env : Env) (t : Trace) → handle_found env p t ≡ (later requeue_delay, t)
  unfolding handle_found handle_unless_deleted handle_phase handle_running handle_current
  handle_found-Waits env t =
      ap (λ x. handle_unless_deleted env x p t) w.alive
      ∙ ap (λ x. handle_phase env x p t) w.running
      ∙ ap (λ x. handle_current env x p t) found_stage
      ∙ ap
          (λ x.
            (if not x
                then pure (later requeue_delay)
                else handle_stage env w.current.phase p (length w.front) w.spec w.current)
              t)
          unmet

reconcile-Waits :
    (env : Env) (key : ObjectKey) (p0 : AgentPipeline) (t : Trace)
    → IsConsistent env key p0
    → Waits (stored p0 t)
    → reconcile env key t ≡ (later requeue_delay, Call.get_pipeline key ∷ t)
unfolding reconcile fetch handle_fetched
reconcile-Waits env key p0 t reads w =
    ap (λ x. handle_fetched env x (Call.get_pipeline key ∷ t)) (reads.reads t)
    ∙ handle_found-Waits (stored p0 t) w env (Call.get_pipeline key ∷ t)

-- A running pipeline, read as it is stored, that nobody deletes and whose first stage that is neither
-- Completed nor Skipped depends on a name that no completed stage has waits for ever: over any number
-- of passes the stored pipeline stays as it is and no agent is asked, whatever the world answers to
-- other calls, and each pass ends without an error and asks for the next after 10 seconds, in
-- nanoseconds.
pub passes-Waits :
    (env : Env) (key : ObjectKey) (p0 : AgentPipeline) (n : ℕ) (t : Trace)
    → IsConsistent env key p0
    → Waits (stored p0 t)
    → let t' = passes env key n t in
      (stored p0 t' ≡ stored p0 t)
      × (requests t' ≡ requests t)
      × ((reconcile env key t').0
          ≡ Outcome.done (record { requeue = false; requeue_after = pos 10000000000 }))
unfolding passes stored requests
passes-Waits env key p0 zero t reads w =
    (refl, refl, ap (λ (r : Outcome × Trace). r.0) (reconcile-Waits env key p0 t reads w))
passes-Waits env key p0 (suc n) t reads w =
    let t' = (reconcile env key t).1 in
    let pass = reconcile-Waits env key p0 t reads w in
    let same : stored p0 t' ≡ stored p0 t = ap (λ (r : Outcome × Trace). stored p0 r.1) pass in
    let unasked : requests t' ≡ requests t = ap (λ (r : Outcome × Trace). requests r.1) pass in
    let (rest_same, rest_unasked, rest_later) =
      passes-Waits env key p0 n t' reads (subst Waits (sym same) w) in
    (rest_same ∙ same, rest_unasked ∙ unasked, rest_later)
