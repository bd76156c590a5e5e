-- ===== src/Controller/Server.antt =====
-- The object that the Kubernetes API holds for one pipeline, read off the trace of accepted writes:
-- an update writes everything but the status, a status update writes the status alone.
use cluster.Prelude.{ℕ, zero, suc, none, List, [], ◌∷◌, ◌≡◌}
use cluster.Runner.Types.{RunRequest}
use cluster.Api.{AgentPipeline}
use cluster.Controller.Env.{Env, ObjectKey, found, Call, Trace}
use cluster.Controller.Reconciler.{reconcile}

unfoldable pub stored : AgentPipeline → Trace → AgentPipeline
stored p0 [] = p0
stored p0 (Call.update q none ∷ t) = record q { status = (stored p0 t).status }
stored p0 (Call.status_update q none ∷ t) = record (stored p0 t) { status = q.status }
stored p0 (_ ∷ t) = stored p0 t

-- What the agents were asked, newest first.
unfoldable pub requests : Trace → List RunRequest
requests [] = []
requests (Call.run_agent req ∷ t) = req ∷ requests t
requests (_ ∷ t) = requests t

-- Reads see the latest accepted write, and nobody but the controller writes.
pub record IsConsistent (env : Env) (key : ObjectKey) (p0 : AgentPipeline) : Type 0 where
  pub reads : (t : Trace) → env.get_pipeline t key ≡ found (stored p0 t)

-- The trace after `n` passes of the reconciler, whatever they return.
unfoldable pub passes : Env → ObjectKey → ℕ → Trace → Trace
passes env key zero t = t
passes env key (suc n) t = passes env key n (reconcile env key t).1
