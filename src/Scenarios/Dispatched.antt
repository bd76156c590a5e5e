-- ===== src/Scenarios/Dispatched.antt =====
-- The first stage of a pipeline, with the answer of an agent that is asked by HTTP.
use cluster.Prelude.{lit, []}
use cluster.Runner.A2a.{run_agent}
use cluster.Controller.Stages.{init_stage}
use cluster.Controller.Reconciler.{agent_request, handle_answer}
use cluster.Controller.Dispatch.{Dispatched, handle_answer-Dispatched}
use cluster.Scenarios.World.{demo_world}
use cluster.Scenarios.Recovered.{stage_a, under_way}
use cluster.Scenarios.Examples.{agent_server, local_runner}

handle_answer-Dispatched_example :
    let req = agent_request under_way stage_a (lit "go") in
    Dispatched agent_server demo_world under_way 0 stage_a
      (init_stage stage_a)
      req
      []
      (run_agent agent_server local_runner req)
      (handle_answer demo_world
        (run_agent agent_server local_runner req)
        under_way
        0
        stage_a
        (init_stage stage_a)
        [])
handle_answer-Dispatched_example =
    handle_answer-Dispatched agent_server demo_world under_way 0 stage_a (init_stage stage_a) []
      local_runner (lit "go")
