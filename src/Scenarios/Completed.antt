-- ===== src/Scenarios/Completed.antt =====
-- A pass in which an agent answers, and one whose status is lost.
use cluster.Prelude.{
  Str, lit, Bool, true, false, pos, none, some, [], ◌∷◌, ◌++◌, ◌≡◌, refl, if◌then◌else◌,
}
use cluster.Api.{AgentPipeline}
use cluster.Runner.Types.{RunStatus, RunResult}
use cluster.Controller.Env.{
  Env, Call, Trace, fetch, write_status, record_event, clock, invoke, read, store,
}
use cluster.Controller.Stages.{
  init_stage, select, find_loop, find_current_stage, are_dependencies_met,
}
use cluster.Controller.Handler.{
  output_config_map, read_config_map_output, context_step, context_loop, build_pipeline_context,
  render_prompt, store_output,
}
use cluster.Controller.Updates.{begin_stage}
use cluster.Controller.Reconciler.{
  agent_request, commit, finish_stage, complete_stage, dispatch_result, handle_answer, run_stage,
  prompt_stage, execute_stage, recover_or_execute, start_stage, handle_stage, handle_current,
  handle_running, handle_phase, handle_unless_deleted, handle_found, handle_fetched, reconcile,
}
use cluster.Controller.Server.{stored, requests, passes, IsConsistent}
use cluster.Controller.Writes.{Written}
use cluster.Controller.Recovery.{recovered}
use cluster.Controller.Keeping.{KeepsConfigMaps, AcceptsConfigMaps}
use cluster.Controller.Storing.{Completes}
use cluster.Controller.Completion.{
  asked_at, IsNext, Answers, looked_up, reconcile-Completes, passes-recover,
}
use cluster.Scenarios.World.{pipeline_key, world, echo, kept-written, kept-untouched}
use cluster.Scenarios.Recovered.{stage_a, under_way}
use cluster.Controller.Runs.{request_to}

abbrev wrote_status : Trace → Bool
wrote_status [] = false
wrote_status (Call.status_update _ _ ∷ t) = true
wrote_status (_ ∷ t) = wrote_status t

-- The first write of a status meets a conflict.
abbrev losing_world : Env
losing_world = record (world under_way echo) {
  status_update = λ t p. if wrote_status t then none else some (lit "conflict");
}

losing_world-AcceptsConfigMaps : AcceptsConfigMaps losing_world
losing_world-AcceptsConfigMaps = record { stores = λ t cm mutate. refl; owns = λ p cm. (cm, refl) }

losing_world-KeepsConfigMaps : KeepsConfigMaps losing_world
losing_world-KeepsConfigMaps = record {
  written = λ t cm mutate accepted. kept-written t cm mutate;
  untouched = λ t c k h. kept-untouched t c k h;
  owned = λ p cm cm' h. cc h;
}

losing_world-IsConsistent : IsConsistent losing_world pipeline_key under_way
losing_world-IsConsistent = record { reads = λ t. refl }

abbrev prompt_a : Str
prompt_a = lit "Execute agent a-agent"

abbrev result_a : RunResult
result_a = record {
  task_id = lit "task";
  output = prompt_a ++ lit "!";
  status = RunStatus.completed;
  duration = pos 0;
  error = [];
}

stage_a-IsNext : IsNext under_way 0 stage_a (init_stage stage_a)
unfolding find_current_stage find_loop select are_dependencies_met
stage_a-IsNext = (refl, refl, refl, refl, refl)

stage_a-Answers :
    Answers losing_world pipeline_key under_way 0 stage_a (init_stage stage_a) prompt_a result_a []
unfolding build_pipeline_context context_loop context_step render_prompt begin_stage agent_request
    lit
stage_a-Answers =
    (record { previous_output = []; inputs = []; stage_outputs = [] }, refl, refl, refl, refl)

reconcile-Completes_example :
    let after = (reconcile losing_world pipeline_key []).1 in
    let asked =
      asked_at losing_world pipeline_key under_way 0 stage_a (init_stage stage_a) prompt_a [] in
    (requests after ≡ request_to under_way stage_a prompt_a ∷ [])
    × (stored under_way asked ≡ under_way)
    × Completes losing_world under_way 2 under_way 0 stage_a
        (init_stage stage_a)
        result_a
        asked
        after
unfolding requests stored
reconcile-Completes_example =
    reconcile-Completes losing_world losing_world-AcceptsConfigMaps losing_world-KeepsConfigMaps
      pipeline_key under_way under_way 0 stage_a (init_stage stage_a) prompt_a result_a []
      (lit "not found") refl stage_a-IsNext refl stage_a-Answers

passes-recover_example :
    let after = passes losing_world pipeline_key 2 [] in
    let second =
      looked_up pipeline_key under_way stage_a (reconcile losing_world pipeline_key []).1 in
    (requests after ≡ request_to under_way stage_a prompt_a ∷ [])
    × Written losing_world second
        (recovered
          (losing_world.now second)
          under_way
          0
          stage_a
          (init_stage stage_a)
          result_a.output)
        under_way
        (stored under_way after)
unfolding requests stored reconcile fetch handle_fetched handle_found handle_unless_deleted
    handle_phase handle_running handle_current find_current_stage find_loop select
    are_dependencies_met handle_stage start_stage read_config_map_output read recover_or_execute
    execute_stage clock record_event build_pipeline_context context_loop context_step prompt_stage
    render_prompt run_stage invoke handle_answer dispatch_result complete_stage store_output store
    finish_stage commit write_status begin_stage agent_request output_config_map lit
passes-recover_example =
    passes-recover losing_world losing_world-AcceptsConfigMaps losing_world-KeepsConfigMaps
      pipeline_key under_way under_way 0 stage_a (init_stage stage_a) prompt_a result_a []
      (lit "not found") losing_world-IsConsistent refl stage_a-IsNext refl stage_a-Answers refl

-- There the second write of the status is accepted.
second_is_accepted :
    (q : AgentPipeline)
    → losing_world.status_update
        (looked_up pipeline_key under_way stage_a (reconcile losing_world pipeline_key []).1)
        q
      ≡ none
unfolding stored reconcile fetch handle_fetched handle_found handle_unless_deleted handle_phase
    handle_running handle_current find_current_stage find_loop select are_dependencies_met
    handle_stage start_stage read_config_map_output read recover_or_execute execute_stage clock
    record_event build_pipeline_context context_loop context_step prompt_stage render_prompt
    run_stage invoke handle_answer dispatch_result complete_stage store_output store finish_stage
    commit write_status begin_stage agent_request output_config_map lit
second_is_accepted q = refl
