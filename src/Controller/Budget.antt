-- ===== src/Controller/Budget.antt =====
-- How often agents are asked in the life of a pipeline.
use cluster.Prelude.{
  ℕ, zero, suc, ◌+◌, ◌≤◌, List, length, ◌≡◌, sym, ap, subst, ◌∙◌, inl, inr, arith,
}
use cluster.Api.{PipelinePhase, AgentPipeline}
use cluster.Runner.Types.{RunRequest}
use cluster.Controller.Env.{Env, ObjectKey, found, FinalizerLaws, Trace}
use cluster.Controller.Reconciler.{reconcile}
use cluster.Controller.Server.{stored, requests, IsConsistent, passes}
use cluster.Controller.Steps.{Fault}
use cluster.Controller.Refinement.{reconcile-Step}
use cluster.Controller.Runs.{Ran, no_run, one_run, reconcile-Ran}
use cluster.Controller.Work.{work}
use cluster.Controller.Liveness.{IsTerminal, IsLive, Step-IsLive}

at_most_one :
    {env : Env} {key : ObjectKey} {t : Trace} {after : List RunRequest}
    → Ran env key t after
    → length after ≤ suc (length (requests t))
at_most_one {t = t} (no_run e) = omega (arith, ap length e)
at_most_one {t = t} (one_run p i s c err_text prompt pc h1 h2 h3 h4 h5 h6 h7 h8 e) =
    omega (arith, ap length e)

none_at_end :
    {env : Env} {key : ObjectKey} {t : Trace} {after : List RunRequest} (q : AgentPipeline)
    → env.get_pipeline t key ≡ found q
    → IsTerminal q.status.phase
    → Ran env key t after
    → after ≡ requests t
none_at_end q reads over (no_run e) = e
none_at_end q reads over (one_run p i s c err_text prompt pc there h2 running h4 h5 h6 h7 h8 e) =
    let same : q ≡ p = cc (reads, there) in
    let now : q.status.phase ≡ PipelinePhase.running =
      ap (λ (r : AgentPipeline). r.status.phase) same ∙ running in
    elim over [ inl h ↦ cc (h, now) | inr h ↦ cc (h, now) ]

-- From a live pipeline on (`IsLive`: valid, in a known phase, deleted by nobody, with stages that
-- depend on earlier ones), read as it is stored, where no write is refused, agents are asked at most
-- as often as `work` says, over any number of passes and whatever the agents answer.
pub passes-requests :
    (env : Env) (key : ObjectKey) (p0 : AgentPipeline) (n : ℕ) (t : Trace)
    → FinalizerLaws env
    → IsConsistent env key p0
    → ¬ Fault env
    → IsLive (stored p0 t)
    → length (requests (passes env key n t)) ≤ length (requests t) + work env (stored p0 t)
unfolding passes
passes-requests env key p0 zero t laws reads faultless live = omega arith
passes-requests env key p0 (suc n) t laws reads faultless live =
    let t' = (reconcile env key t).1 in
    let ran = reconcile-Ran env key t in
    elim (Step-IsLive env (stored p0 t) live (stored p0 t') laws faultless
      (reconcile-Step env key p0 t reads)) [
        | inl (over, same) ↦ omega (
          arith,
          passes-requests env key p0 n t' laws reads faultless (subst IsLive (sym same) live),
          ap length (none_at_end (stored p0 t) (reads.reads t) over ran),
          ap (work env) same,
        )
        | inr (live', less) ↦ omega (
          arith,
          passes-requests env key p0 n t' laws reads faultless live',
          at_most_one ran,
          less,
        )
      ]
