-- ===== src/Controller/EndToEnd.antt =====
-- A new pipeline whose agents all answer, to its end.
use cluster.Prelude.{false, Str, suc, none, List, [], ◌∷◌, length, ◌≡◌, ap, ◌∙◌}
use cluster.Api.{PipelinePhase, StageSpec, AgentPipeline}
use cluster.Runner.Types.{ok, RunStatus, RunRequest, RunResult}
use cluster.Controller.Env.{FinalizerLaws, Env, ObjectKey, Trace}
use cluster.Controller.Handler.{PipelineContext, render_prompt}
use cluster.Controller.Reconciler.{reconcile}
use cluster.Controller.Server.{stored, requests, passes, IsConsistent}
use cluster.Controller.Steps.{Fault, IsNew}
use cluster.Controller.Outcome.{finalizer_name}
use cluster.Controller.Dependencies.{Ordered}
use cluster.Controller.Keeping.{KeepsConfigMaps, AcceptsConfigMaps}
use cluster.Controller.Distinct.{Distinct, AllUnread}
use cluster.Controller.Delivery.{outputs_for, requests_for}
use cluster.Controller.Beginning.{adorned, adorned-alive, begins-Delivering}
use cluster.Controller.WholeRuns.{AllKept, passes-completed}

-- A new pipeline without finalizer, with at least one stage, stages of different names that depend
-- on earlier ones and outputs that cannot be read, whose agents complete every run, where prompts
-- are rendered and no write is refused: two passes, one for each stage and one more complete it.
-- The agents are asked once for each stage, in the order of the spec, each with the prompt rendered
-- from the outputs of the stages before; and the ConfigMap of each stage holds what its agent put
-- out.
pub passes-AllKept :
    (env : Env) (key : ObjectKey) (p : AgentPipeline) (answers : RunRequest → RunResult)
    (prompt : StageSpec → PipelineContext → Str) (first : StageSpec) (rest : List StageSpec)
    → IsConsistent env key p
    → AcceptsConfigMaps env
    → KeepsConfigMaps env
    → ¬ Fault env
    → FinalizerLaws env
    → p.meta.deletion_timestamp ≡ none
    → IsNew p.status.phase
    → env.contains_finalizer p.meta finalizer_name ≡ false
    → p.spec.stages ≡ first ∷ rest
    → Ordered [] p.spec.stages
    → Distinct p.spec.stages
    → AllUnread env (adorned env p).meta [] p.spec.stages
    → ((t : Trace) (req : RunRequest) → env.run_agent t req ≡ ok (answers req))
    → ((req : RunRequest) → (answers req).status ≡ RunStatus.completed)
    → ((s : StageSpec) (pc : PipelineContext) → render_prompt env s pc ≡ ok (prompt s pc))
    → let q = adorned env p in
      let after = passes env key (suc (suc (suc (length p.spec.stages)))) [] in
      ((stored p after).status.phase ≡ PipelinePhase.completed)
      × (requests after ≡ requests_for answers prompt q [] p.spec.stages [])
      × AllKept env q.meta after (outputs_for answers prompt q [] p.spec.stages)
unfolding passes
passes-AllKept env key p answers prompt first rest consistent accepts keeps faultless laws alive
      is_new absent stages ordered distinct unread answered succeeds rendered =
    let q : AgentPipeline = adorned env p in
    let begun =
      begins-Delivering env key p consistent laws faultless alive is_new keeps first rest stages
        absent unread in
    let t = (reconcile env key (reconcile env key []).1).1 in
    let after = passes env key (suc (length p.spec.stages)) t in
    let (done, asked, kept) =
      passes-completed env key p q answers prompt consistent accepts keeps faultless
        (adorned-alive env key p consistent laws faultless alive is_new) ordered distinct answered
        succeeds rendered t begun.0 in
    (done, asked ∙ ap (requests_for answers prompt q [] p.spec.stages) begun.1, kept)
