-- ===== src/Runner/Types.antt =====
-- agentpipeline-operator/internal/runner/types.go and interface.go: what an agent is asked and
-- what it answers. A Go pair of a value and an error is a `Result`; an error is its text.

use cluster.Prelude.{◌≡◌, refl, ◌⊎◌, inl, inr, Str, Option}
use cluster.Api.{Duration}

pub data Result {ℓ} (A : Type ℓ) : Type ℓ where
  ok : A → Result A
  err : Str → Result A

pub Result-cases {ℓ} :
    {A : Type ℓ} (r : Result A) → ((a : A) × (r ≡ ok a)) ⊎ ((e : Str) × (r ≡ err e))
Result-cases (ok a) = inl (a, refl)
Result-cases (err e) = inr (e, refl)

pub data RunStatus : Type 0 where
  unset completed failed timed_out : RunStatus
  other : Str → RunStatus

pub record RunRequest : Type 0 where
  pub agent_name : Str
  pub namespace : Str
  pub prompt : Str
  pub timeout : Duration

pub record RunResult : Type 0 where
  pub task_id : Str
  pub output : Str
  pub status : RunStatus
  pub duration : Duration
  pub error : Str

-- interface.go: `State` is the world in which the runner acts.
pub record AgentRunner (State : Type 0) : Type 0 where
  pub run_agent : RunRequest → State → Result RunResult × State
  pub check_health : State → Option Str × State
