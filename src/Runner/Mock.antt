-- ===== src/Runner/Mock.antt =====
-- agentpipeline-operator/internal/runner/mock_runner.go: the runner with canned responses.
-- The context is what `ctx.Err()` answers; `quote` is the verb %q.
use cluster.Prelude.{Str, lit, str_eq, ℤ, Option, none, some, List, [], ◌∷◌, ◌++◌, if◌then◌else◌}
use cluster.Api.{Duration}
use cluster.Runner.Types.{Result, ok, RunStatus, RunRequest, RunResult, AgentRunner}

pub record MockResponse : Type 0 where
  pub output : Str
  pub status : RunStatus
  pub error : Str
  pub duration : Duration

pub record MockRunner : Type 0 where
  pub responses : List (Str × MockResponse)
  pub calls : List RunRequest
  pub health_err : Option Str

unfoldable pub new_mock_runner : List (Str × MockResponse) → MockRunner
new_mock_runner responses = record { responses = responses; calls = []; health_err = none }

-- `resp, ok := m.Responses[name]`
unfoldable pub lookup : Str → List (Str × MockResponse) → Option MockResponse
lookup name [] = none
lookup name ((k, r) ∷ rs) = if str_eq k name then some r else lookup name rs

abbrev pub millisecond : Duration
millisecond = ℤ.pos 1000000

unfoldable pub check_health : MockRunner → Option Str
check_health m = m.health_err

module _ (quote : Str → Str) (ctx_err : Option Str) where
  unfoldable pub respond : RunRequest → Option MockResponse → RunResult
  respond req none = record {
    task_id = [];
    output = [];
    status = RunStatus.failed;
    duration = millisecond;
    error = lit "no mock response configured for agent " ++ quote req.agent_name;
  }
  respond req (some resp) = elim ctx_err [
    | some _ ↦ record {
      task_id = [];
      output = [];
      status = RunStatus.timed_out;
      duration = millisecond;
      error = lit "context cancelled";
    }
    | none ↦ record {
      task_id = lit "mock-task-" ++ req.agent_name;
      output = resp.output;
      status = resp.status;
      duration = resp.duration;
      error = resp.error;
    }
  ]

  unfoldable pub run_agent : MockRunner → RunRequest → Result RunResult × MockRunner
  unfolding respond lookup
  run_agent m req = (
    ok (respond req (lookup req.agent_name m.responses)),
    record m { calls = m.calls ++ (req ∷ []) },
  )

  -- The mock runner as a runner of the interface.
  abbrev pub as_agent_runner : AgentRunner MockRunner
  as_agent_runner = record {
    run_agent = λ req m. run_agent m req;
    check_health = λ m. (check_health m, m);
  }
