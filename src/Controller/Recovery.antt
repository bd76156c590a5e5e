-- ===== src/Controller/Recovery.antt =====
-- A stage whose output was stored, and whose status was not.
use cluster.Prelude.{
  some, [], ◌++◌, set, Str, str_eq, lit, ℕ, true, not, none, ◌∷◌, ◌≡◌, refl, sym, ap, subst, ◌∙◌,
  if◌then◌else◌,
}
use cluster.Api.{PipelinePhase, StagePhase, StageSpec, StageStatus, Time, AgentPipeline}
use cluster.Runner.Types.{Result, ok}
use cluster.Controller.Env.{Env, ObjectKey, ConfigMap, found, Trace, Call, pure, fetch, read, clock}
use cluster.Controller.Stages.{
  stage, find_current_stage, are_dependencies_met, output_config_map_name, truncate_output,
}
use cluster.Controller.Handler.{lookup_or_empty, read_config_map_output}
use cluster.Controller.Outcome.{later, requeue_delay}
use cluster.Controller.Updates.{end_stage}
use cluster.Controller.Reconciler.{
  complete_stage_from_output, recover_or_execute, start_stage, handle_stage, handle_current,
  handle_running, handle_phase, handle_unless_deleted, handle_found, handle_fetched, reconcile,
}
use cluster.Controller.Server.{stored, requests}
use cluster.Controller.Writes.{Written, commit-Written}
use cluster.Controller.Requests.{commit-requests}
use cluster.Controller.Runs.{own_output}

module _ (env : Env) (p : AgentPipeline) (i : ℕ) (s : StageSpec) (c : StageStatus)
    (output : Str) where
  start_stage-recovers :
      (t : Trace) (cm : ConfigMap)
      → env.get_config_map t (own_output p s) ≡ ok cm
      → cm.contents ≡ (lit "output", output) ∷ []
      → start_stage env p i s c t
        ≡ complete_stage_from_output env p i s c output (Call.get_config_map (own_output p s) ∷ t)
  unfolding start_stage read_config_map_output read recover_or_execute lookup_or_empty lit str_eq
  start_stage-recovers t cm h holds = rw (h, start_stage, holds, recover_or_execute) refl

  pub handle_found-start_stage :
      (t : Trace)
      → p.meta.deletion_timestamp ≡ none
      → p.status.phase ≡ PipelinePhase.running
      → find_current_stage p ≡ stage i s c
      → are_dependencies_met p s ≡ true
      → c.phase ≡ StagePhase.pending
      → handle_found env p t ≡ start_stage env p i s c t
  unfolding handle_found handle_unless_deleted handle_phase handle_running handle_current
      handle_stage
  handle_found-start_stage t alive running current met pending =
      ap (λ x. handle_unless_deleted env x p t) alive
      ∙ ap (λ x. handle_phase env x p t) running
      ∙ ap (λ x. handle_current env x p t) current
      ∙ ap (λ x. (if not x then pure (later requeue_delay) else handle_stage env c.phase p i s c) t)
          met
      ∙ ap (λ x. handle_stage env x p i s c t) pending

-- What the name of a stage's output should be.
abbrev pub name_of_output : AgentPipeline → StageSpec → Str
name_of_output p s = p.meta.name ++ (lit "-stage-" ++ s.name)

-- The ConfigMap holds that text, under `output`, and nothing else.
abbrev pub Holds : Result ConfigMap → Str → Type 0
Holds there text = (cm : ConfigMap) × (there ≡ ok cm) × (cm.contents ≡ (lit "output", text) ∷ [])

-- The pipeline in which stage `i` alone has changed, to Completed with an output stored before.
abbrev pub recovered : Time → AgentPipeline → ℕ → StageSpec → StageStatus → Str → AgentPipeline
recovered end p i s c output = record p {
  status = record p.status {
    stages = set p.status.stages i (record c {
      phase = StagePhase.completed;
      completed_at = some end;
      output = truncate_output output;
      output_ref = name_of_output p s;
    });
  };
}

complete_stage_from_output-Written :
    (env : Env) (p0 p : AgentPipeline) (i : ℕ) (s : StageSpec) (c : StageStatus) (output : Str)
    (t : Trace)
    → Written env t
        (recovered (env.now t) p i s c output)
        (stored p0 t)
        (stored p0 (complete_stage_from_output env p i s c output t).1)
unfolding complete_stage_from_output clock end_stage output_config_map_name
complete_stage_from_output-Written env p0 p i s c output t = commit-Written env p0 _ _ _ _ _ _ t

-- A pass over a running pipeline that is not being deleted, whose current stage is pending, with its
-- dependencies met, and whose output ConfigMap holds a text under `output` alone, asks no agent. It
-- writes the pipeline in which that stage is Completed now, with the text, truncated, as its output
-- and the name of the ConfigMap, and all else is as it was: if this write is accepted the stored
-- pipeline has that status, and if it is refused the stored pipeline is unchanged.
pub reconcile-recovers :
    (env : Env) (key : ObjectKey) (p0 p : AgentPipeline) (t : Trace) (i : ℕ) (s : StageSpec)
    (c : StageStatus) (output : Str)
    → env.get_pipeline t key ≡ found p
    → p.meta.deletion_timestamp ≡ none
    → p.status.phase ≡ PipelinePhase.running
    → find_current_stage p ≡ stage i s c
    → are_dependencies_met p s ≡ true
    → c.phase ≡ StagePhase.pending
    → Holds (env.get_config_map (Call.get_pipeline key ∷ t) (own_output p s)) output
    → let t2 = Call.get_config_map (own_output p s) ∷ Call.get_pipeline key ∷ t in
      (requests (reconcile env key t).1 ≡ requests t)
      × Written env t2
          (recovered (env.now t2) p i s c output)
          (stored p0 t)
          (stored p0 (reconcile env key t).1)
unfolding reconcile fetch requests stored
reconcile-recovers env key p0 p t i s c output there alive running current met pending
      (cm, kept, holds) =
    let t1 : Trace = Call.get_pipeline key ∷ t in
    let t2 : Trace = Call.get_config_map (own_output p s) ∷ t1 in
    let same : reconcile env key t ≡ complete_stage_from_output env p i s c output t2 =
      ap (λ x. handle_fetched env x t1) there
      ∙ (unfold handle_fetched in
          handle_found-start_stage env p i s c output t1 alive running current met pending)
      ∙ start_stage-recovers env p i s c output t1 cm kept holds in
    (
      ap (λ r. requests r.1) same
          ∙ (unfold complete_stage_from_output clock in commit-requests env _ _ _ _ _ _ t2),
      subst
          (λ r.
            Written env t2 (recovered (env.now t2) p i s c output) (stored p0 t) (stored p0 r.1))
          (sym same) (complete_stage_from_output-Written env p0 p i s c output t2),
    )
