-- ===== src/Controller/Outcome.antt =====
-- How a method of agentpipeline-operator/internal/controller/agentpipeline_controller.go ends, and
-- the constants of that file.
use cluster.Prelude.{Str, lit, ℕ, ◌*◌, pos, Bool, true, false, Option, none, some, ◌++◌}
use cluster.Api.{Duration}
use cluster.Controller.Env.{M, pure}

abbrev pub finalizer_name : Str
finalizer_name = lit "aiops.cluster69.io/pipeline-cleanup"

abbrev pub second : ℕ
second = 1000000000

abbrev pub requeue_delay : Duration
requeue_delay = pos (10 * second)

-- ctrl.Result
pub record CtrlResult : Type 0 where
  pub requeue : Bool
  pub requeue_after : Duration

pub data Outcome : Type 0 where
  done : CtrlResult → Outcome
  failure : Str → Outcome
  panic : Outcome

abbrev pub stop : Outcome
stop = done (record { requeue = false; requeue_after = pos 0 })

abbrev pub again : Outcome
again = done (record { requeue = true; requeue_after = pos 0 })

abbrev pub later : Duration → Outcome
later delay = done (record { requeue = false; requeue_after = delay })

-- `if err := …; err != nil { return ctrl.Result{}, fmt.Errorf(prefix + "%w", err) }`, and `rest`.
abbrev pub unless_error : Option Str → Str → M Outcome → M Outcome
unless_error none prefix rest = rest
unless_error (some e) prefix rest = pure (failure (prefix ++ e))
