-- ===== src/Scenarios/Examples.antt =====
-- The theorems at concrete inputs.
use cluster.Prelude.{
  ℕ, zero, suc, ◌<◌, Str, lit, str_eq, pos, ◌+◌, ◌≤◌, true, Option, none, some, List, [], ◌∷◌, ◌++◌,
  length, ◌≡◌, refl, ◌⊎◌, ◌↔◌, arith, if◌then◌else◌,
}
use cluster.Api.{StagePhase, AgentPipeline}
use cluster.Runner.Types.{ok, RunRequest}
use cluster.Runner.Scanner.{scan}
use cluster.Runner.Sse.{SseResponse, initial, parse_sse_stream}
use cluster.Runner.A2a.{A2aRunner, Http, timeout_of, run_agent}
use cluster.Runner.Answers.{Answered, run_agent-Answered}
use cluster.Runner.Stream.{Parsed, parse_sse_stream-Parsed}
use cluster.Runner.Frames.{frames, Sendable, answer}
use cluster.Runner.Framing.{parse_sse_stream-frames}
use cluster.Controller.Env.{Trace}
use cluster.Controller.Stages.{
  find_current_stage, are_dependencies_met, init_stage, init_stages, all_in, contains,
  effective_policy, truncate_output,
}
use cluster.Controller.Reconciler.{reconcile}
use cluster.Controller.Server.{stored, requests, passes}
use cluster.Controller.Steps.{Step}
use cluster.Controller.Invariant.{IsValid, passes-IsValid}
use cluster.Controller.Refinement.{reconcile-Step}
use cluster.Controller.Work.{work, total_work}
use cluster.Controller.Liveness.{IsTerminal, IsLive, passes-IsTerminal}
use cluster.Controller.Budget.{passes-requests}
use cluster.Controller.Runs.{Ran, reconcile-Ran}
use cluster.Controller.Selection.{
  AllCompleted, are_dependencies_met_iff, Finds, find_current_stage-Finds,
}
use cluster.Controller.Outputs.{truncate_output-suffix, output_config_map_name-injective}
use cluster.Scenarios.World.{
  pipeline_key, stage_of, demo, demo_world, demo-FinalizerLaws, demo-IsConsistent, demo-faultless,
}

demo-IsValid : IsValid demo
unfolding effective_policy
demo-IsValid = record { fits = (omega arith, (omega arith, tt)); stages = tt }

demo-IsLive : IsLive demo
unfolding all_in contains lit str_eq
demo-IsLive = record {
  valid = demo-IsValid;
  alive = refl;
  known = λ phase h. cc;
  ordered = (refl, (refl, tt));
}

demo-work : work demo_world demo ≤ 11
unfolding work total_work init_stages contains lit effective_policy
demo-work = omega arith

reconcile-Step_example :
    Step demo_world (stored demo []) (stored demo (reconcile demo_world pipeline_key []).1)
reconcile-Step_example = reconcile-Step demo_world pipeline_key demo [] demo-IsConsistent

passes-IsValid_example : IsValid (stored demo (passes demo_world pipeline_key 5 []))
unfolding stored
passes-IsValid_example =
    passes-IsValid demo_world pipeline_key demo 5 [] demo-FinalizerLaws demo-IsConsistent
      demo-IsValid

passes-IsTerminal_example :
    IsTerminal (stored demo (passes demo_world pipeline_key 11 [])).status.phase
unfolding stored
passes-IsTerminal_example =
    passes-IsTerminal demo_world pipeline_key demo 11 [] demo-FinalizerLaws demo-IsConsistent
      demo-faultless demo-IsLive demo-work

passes-requests_example :
    length (requests (passes demo_world pipeline_key 9 []))
    ≤ length (requests []) + work demo_world (stored demo [])
unfolding stored
passes-requests_example =
    passes-requests demo_world pipeline_key demo 9 [] demo-FinalizerLaws demo-IsConsistent
      demo-faultless demo-IsLive

-- Behind two passes, the first stage runs.
abbrev begun_trace : Trace
begun_trace = passes demo_world pipeline_key 2 []

reconcile-Ran_example :
    Ran demo_world pipeline_key begun_trace
      (requests (reconcile demo_world pipeline_key begun_trace).1)
reconcile-Ran_example = reconcile-Ran demo_world pipeline_key begun_trace

abbrev task_in_state : Str → SseResponse
task_in_state state = record {
  jsonrpc = lit "2.0";
  id = lit "1";
  result = some (record {
    id = lit "t";
    kind = lit "status-update";
    task_id = lit "t";
    status = record { state = state; message = none };
    artifact = none;
  });
  error = none;
}

-- `{w}` is a task at work, any other object one that is completed.
abbrev decode : Str → Option SseResponse
decode s = some (task_in_state (if str_eq s (lit "{w}") then lit "working" else lit "completed"))

abbrev payloads : List Str
payloads = lit "w" ∷ lit "c" ∷ []

payloads-Sendable : Sendable payloads
unfolding lit
payloads-Sendable = (((ground arith, tt), omega arith), (((ground arith, tt), omega arith), tt))

parse_sse_stream-frames_example :
    parse_sse_stream decode (λ n. none) (scan none (frames payloads))
    ≡ ok (answer decode payloads initial)
parse_sse_stream-frames_example =
    parse_sse_stream-frames decode (λ n. none) payloads (λ n. refl) payloads-Sendable

parse_sse_stream-Parsed_example :
    Parsed decode
      (λ n. none)
      (scan (some (lit "reset")) (frames payloads))
      (parse_sse_stream decode (λ n. none) (scan (some (lit "reset")) (frames payloads)))
parse_sse_stream-Parsed_example =
    parse_sse_stream-Parsed decode (λ n. none) (scan (some (lit "reset")) (frames payloads))

abbrev pub agent_server : Http
agent_server = record {
  marshal = λ task. ok task.params.id;
  unmarshal = decode;
  new_request = λ method url. none;
  send =
      λ timeout request. ok (record { status_code = 200; body = frames payloads; failed = none });
  ctx_after_send = λ timeout. none;
  ctx_at_line = λ timeout n. none;
  ctx_after_stream = λ timeout. none;
  unix_nano = 17;
  elapsed = pos 5;
}

abbrev request : RunRequest
request = record {
  agent_name = lit "a";
  namespace = lit "ops";
  prompt = lit "go";
  timeout = pos 60;
}

abbrev pub local_runner : A2aRunner
local_runner = record { base_url = lit "http://localhost"; user_id = [] }

run_agent-Answered_example :
    Answered agent_server (timeout_of request) (run_agent agent_server local_runner request)
run_agent-Answered_example = run_agent-Answered agent_server local_runner request

are_dependencies_met_iff_example :
    (are_dependencies_met demo (stage_of (lit "b") (lit "a" ∷ [])) ≡ true)
    ↔ AllCompleted (lit "a" ∷ []) []
are_dependencies_met_iff_example = are_dependencies_met_iff demo (stage_of (lit "b") (lit "a" ∷ []))

-- The first stage is completed.
abbrev half_way : AgentPipeline
half_way = record demo {
  status = record demo.status {
    stages =
        record (init_stage (stage_of (lit "a") [])) { phase = StagePhase.completed }
        ∷ init_stage (stage_of (lit "b") (lit "a" ∷ []))
        ∷ [];
  };
}

find_current_stage-Finds_example :
    Finds half_way.spec.stages 0 half_way.status.stages (find_current_stage half_way)
find_current_stage-Finds_example = find_current_stage-Finds half_way

abbrev fill : ℕ → Str
fill zero = []
fill (suc n) = b'x' ∷ fill n

truncate_output-suffix_example :
    ((length (fill 1030) ≤ 1024) × (truncate_output (fill 1030) ≡ fill 1030))
    ⊎ ((1024 < length (fill 1030))
        × ((front : Str) × (rest : Str) × (front ++ rest ≡ fill 1030)
            × (length rest ≡ 1021)
            × (truncate_output (fill 1030) ≡ lit "..." ++ rest)))
truncate_output-suffix_example = truncate_output-suffix (fill 1030)

output_config_map_name-injective_example : lit "a" ≡ lit "a"
output_config_map_name-injective_example =
    output_config_map_name-injective (lit "p") (lit "a") (lit "a") refl
