-- ===== src/Controller/Collision.antt =====
-- Two pipelines of one namespace whose stages have the same output ConfigMap.
use cluster.Prelude.{
  Str, lit, ℕ, true, none, ◌∷◌, ◌++◌, length, length-append, append_assoc, ◌≡◌, ◌≢◌, sym, ap, subst,
  ◌∙◌, arith,
}
use cluster.Api.{PipelinePhase, StagePhase, StageSpec, StageStatus, AgentPipeline}
use cluster.Controller.Env.{Env, ObjectKey, found, Trace, Call}
use cluster.Controller.Stages.{
  stage, find_current_stage, are_dependencies_met, output_config_map_name,
}
use cluster.Controller.Reconciler.{reconcile}
use cluster.Controller.Server.{stored, requests}
use cluster.Controller.Writes.{Written}
use cluster.Controller.Runs.{own_output}
use cluster.Controller.Recovery.{Holds, recovered, reconcile-recovers}

longer-differs : (m q : Str) → m ++ (lit "-stage-" ++ q) ≢ m
unfolding lit
longer-differs m q h =
    let same = ap length h in omega (arith, same, length-append m (lit "-stage-" ++ q))

regroup :
    (m q s : Str)
    → (m ++ (lit "-stage-" ++ q)) ++ (lit "-stage-" ++ s)
      ≡ m ++ (lit "-stage-" ++ (q ++ (lit "-stage-" ++ s)))
regroup m q s = simp append_assoc

same-own_output :
    (p p' : AgentPipeline) (s s' : StageSpec) (q : Str)
    → p.meta.namespace ≡ p'.meta.namespace
    → p.meta.name ≡ p'.meta.name ++ (lit "-stage-" ++ q)
    → s'.name ≡ q ++ (lit "-stage-" ++ s.name)
    → own_output p s ≡ own_output p' s'
unfolding output_config_map_name
same-own_output p p' s s' q space name name' =
    ap (λ n. record { namespace = p.meta.namespace; name = n })
      (ap (λ n. n ++ (lit "-stage-" ++ s.name)) name
        ∙ regroup p'.meta.name q s.name
        ∙ ap (λ n. p'.meta.name ++ (lit "-stage-" ++ n)) (sym name'))
    ∙ ap (λ n. record { namespace = n; name = output_config_map_name p'.meta.name s'.name }) space

-- Let a pipeline have the name of another one of its namespace with `-stage-` and some text `q`
-- behind it, and let a stage of the other have a name that is `q`, `-stage-` and the name of a stage
-- of the first. The names of the two pipelines differ. But a pass over the first one, running and not
-- being deleted, where that stage is pending and current, with its dependencies met, takes the text
-- that the ConfigMap of the other's stage holds under `output` alone: it asks no agent and writes the
-- first pipeline with its stage Completed by that text. If this write is accepted the stored pipeline
-- has that status, and if it is refused the stored pipeline is unchanged.
pub reconcile-collision :
    (env : Env) (key : ObjectKey) (p0 p p' : AgentPipeline) (t : Trace) (i : ℕ) (s s' : StageSpec)
    (c : StageStatus) (q output : Str)
    → p.meta.namespace ≡ p'.meta.namespace
    → p.meta.name ≡ p'.meta.name ++ (lit "-stage-" ++ q)
    → s'.name ≡ q ++ (lit "-stage-" ++ s.name)
    → env.get_pipeline t key ≡ found p
    → p.meta.deletion_timestamp ≡ none
    → p.status.phase ≡ PipelinePhase.running
    → find_current_stage p ≡ stage i s c
    → are_dependencies_met p s ≡ true
    → c.phase ≡ StagePhase.pending
    → Holds (env.get_config_map (Call.get_pipeline key ∷ t) (own_output p' s')) output
    → let t2 = Call.get_config_map (own_output p s) ∷ Call.get_pipeline key ∷ t in
      (p.meta.name ≢ p'.meta.name)
      × (requests (reconcile env key t).1 ≡ requests t)
      × Written env t2
          (recovered (env.now t2) p i s c output)
          (stored p0 t)
          (stored p0 (reconcile env key t).1)
reconcile-collision env key p0 p p' t i s s' c q output space name name' there alive running current
      met pending held =
    let same = same-own_output p p' s s' q space name name' in
    let t1 : Trace = Call.get_pipeline key ∷ t in
    let recovers =
      reconcile-recovers env key p0 p t i s c output there alive running current met pending
        (subst (λ k. Holds (env.get_config_map t1 k) output) (sym same) held) in
    (λ e. longer-differs p'.meta.name q (sym name ∙ e), recovers.0, recovers.1)
