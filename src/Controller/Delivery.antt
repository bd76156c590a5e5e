-- ===== src/Controller/Delivery.antt =====
-- What a pipeline delivers whose agents all answer.
use cluster.Prelude.{Str, List, [], ◌∷◌, ◌++◌, ◌≡◌, refl, ap}
use cluster.Api.{StrMap, PipelinePhase, StageSpec, StageStatus, ObjectMeta, AgentPipeline}
use cluster.Runner.Types.{RunRequest, RunResult}
use cluster.Controller.Env.{Env, Trace}
use cluster.Controller.Stages.{init_stages}
use cluster.Controller.Handler.{PipelineContext}
use cluster.Controller.Server.{stored}
use cluster.Controller.Deliveries.{Delivery, specs_of, statuses_of, Named}
use cluster.Controller.Handover.{outputs_of, context_of, Delivered, AllDelivered}
use cluster.Controller.Distinct.{AllUnread}
use cluster.Controller.Runs.{request_to}

-- The agents that answer each request by `answers`, and the prompts that are rendered as `prompt`.
module _ (answers : RunRequest → RunResult) (prompt : StageSpec → PipelineContext → Str)
    (p : AgentPipeline) where
  -- The request for a stage behind stages with these outputs.
  abbrev pub request_for : StrMap → StageSpec → RunRequest
  request_for outs s = request_to p s (prompt s (context_of p.spec.stages s outs))

  -- The outputs once a stage has delivered.
  abbrev pub with_output : StrMap → StageSpec → StrMap
  with_output outs s = outs ++ ((s.name, (answers (request_for outs s)).output) ∷ [])

  -- The outputs once all these stages have delivered, one after the other.
  abbrev pub outputs_for : StrMap → List StageSpec → StrMap
  outputs_for outs [] = outs
  outputs_for outs (s ∷ ss) = outputs_for (with_output outs s) ss

  -- The requests for these stages, newest first, before older ones.
  abbrev pub requests_for : StrMap → List StageSpec → List RunRequest → List RunRequest
  requests_for outs [] asked = asked
  requests_for outs (s ∷ ss) asked =
      requests_for (with_output outs s) ss (request_for outs s ∷ asked)

-- At `t` the stages `ds` of the running pipeline `p` have delivered and the stages `rest` have not
-- begun.
pub record Delivering (env : Env) (p0 p : AgentPipeline) (t : Trace) (ds : List Delivery)
    (rest : List StageSpec) : Type 0 where
  pub same_meta : (stored p0 t).meta ≡ p.meta
  pub same_spec : (stored p0 t).spec ≡ p.spec
  pub running : (stored p0 t).status.phase ≡ PipelinePhase.running
  pub split : p.spec.stages ≡ specs_of ds ++ rest
  pub statuses : (stored p0 t).status.stages ≡ statuses_of ds ++ init_stages rest
  pub delivered : AllDelivered env p.meta t ds
  pub unread : AllUnread env p.meta t rest

pub AllDelivered-Named :
    (env : Env) (m : ObjectMeta) (t : Trace) (ds : List Delivery)
    → AllDelivered env m t ds
    → Named ds
AllDelivered-Named env m t [] all = tt
AllDelivered-Named env m t (d ∷ ds) (at, all) =
    (at.phase, at.named, AllDelivered-Named env m t ds all)

pub request_to-meta :
    (p q : AgentPipeline) (s : StageSpec) (text : Str)
    → q.meta ≡ p.meta
    → request_to q s text ≡ request_to p s text
request_to-meta p q s text e = rw e refl

pub statuses_of-append :
    (ds : List Delivery) (d : Delivery) (cs : List StageStatus)
    → statuses_of ds ++ (d.status ∷ cs) ≡ statuses_of (ds ++ (d ∷ [])) ++ cs
statuses_of-append [] d cs = refl
statuses_of-append (x ∷ ds) d cs = ap (λ r. x.status ∷ r) (statuses_of-append ds d cs)

pub specs_of-append :
    (ds : List Delivery) (d : Delivery) (ss : List StageSpec)
    → specs_of ds ++ (d.spec ∷ ss) ≡ specs_of (ds ++ (d ∷ [])) ++ ss
specs_of-append [] d ss = refl
specs_of-append (x ∷ ds) d ss = ap (λ r. x.spec ∷ r) (specs_of-append ds d ss)

pub outputs_of-append :
    (ds : List Delivery) (d : Delivery)
    → outputs_of (ds ++ (d ∷ [])) ≡ outputs_of ds ++ ((d.spec.name, d.output) ∷ [])
outputs_of-append [] d = refl
outputs_of-append (x ∷ ds) d = ap (λ r. (x.spec.name, x.output) ∷ r) (outputs_of-append ds d)

pub AllDelivered-append :
    (env : Env) (m : ObjectMeta) (t : Trace) (ds : List Delivery) (d : Delivery)
    → AllDelivered env m t ds
    → Delivered env m t d
    → AllDelivered env m t (ds ++ (d ∷ []))
AllDelivered-append env m t [] d all at = (at, tt)
AllDelivered-append env m t (x ∷ ds) d (at', all) at =
    (at', AllDelivered-append env m t ds d all at)
