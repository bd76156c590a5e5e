-- ===== src/Scenarios/Recovered.antt =====
-- A pipeline whose first stage has its output stored, and not yet its status.
use cluster.Prelude.{lit, str_eq, none, [], ◌∷◌, ◌≡◌, refl}
use cluster.Api.{PipelinePhase, StageSpec, AgentPipeline}
use cluster.Controller.Env.{Env, Call, Trace}
use cluster.Controller.Stages.{
  init_stage, select, find_loop, find_current_stage, are_dependencies_met, output_config_map_name,
}
use cluster.Controller.Handler.{output_config_map, replace_output}
use cluster.Controller.Reconciler.{reconcile}
use cluster.Controller.Server.{stored, requests}
use cluster.Controller.Writes.{Written}
use cluster.Controller.Runs.{own_output}
use cluster.Controller.Recovery.{recovered, reconcile-recovers}
use cluster.Scenarios.World.{pipeline_key, stage_of, demo, world, echo}

abbrev pub stage_a : StageSpec
stage_a = stage_of (lit "a") []

abbrev pub under_way : AgentPipeline
under_way = record demo {
  status = record demo.status {
    phase = PipelinePhase.running;
    stages = init_stage stage_a ∷ init_stage (stage_of (lit "b") (lit "a" ∷ [])) ∷ [];
  };
}

abbrev running_world : Env
running_world = world under_way echo

abbrev stored_trace : Trace
stored_trace =
    Call.create_or_update (output_config_map under_way (lit "a") (lit "fine"))
      (replace_output (lit "fine")) none
    ∷ []

reconcile-recovers_example :
    let after = (reconcile running_world pipeline_key stored_trace).1 in
    let t2 =
      Call.get_config_map (own_output under_way stage_a)
      ∷ Call.get_pipeline pipeline_key
      ∷ stored_trace in
    (requests after ≡ requests stored_trace)
    × Written running_world t2
        (recovered (running_world.now t2) under_way 0 stage_a (init_stage stage_a) (lit "fine"))
        (stored under_way stored_trace)
        (stored under_way after)
unfolding stored find_current_stage find_loop select are_dependencies_met output_config_map
    replace_output output_config_map_name str_eq lit
reconcile-recovers_example =
    reconcile-recovers running_world pipeline_key under_way under_way stored_trace 0 stage_a
      (init_stage stage_a) (lit "fine") refl refl refl refl refl refl
      (replace_output (lit "fine") (output_config_map under_way (lit "a") (lit "fine")), refl, refl)
