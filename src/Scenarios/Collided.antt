-- ===== src/Scenarios/Collided.antt =====
-- A pipeline that takes the output of another one's stage.
use cluster.Prelude.{lit, str_eq, none, [], ◌∷◌, ◌≡◌, ◌≢◌, refl}
use cluster.Api.{StageSpec, AgentPipeline}
use cluster.Controller.Env.{Env, Call, Trace}
use cluster.Controller.Stages.{
  init_stage, select, find_loop, find_current_stage, are_dependencies_met, output_config_map_name,
}
use cluster.Controller.Handler.{output_config_map, replace_output}
use cluster.Controller.Reconciler.{reconcile}
use cluster.Controller.Server.{stored, requests}
use cluster.Controller.Writes.{Written}
use cluster.Controller.Runs.{own_output}
use cluster.Controller.Recovery.{recovered}
use cluster.Controller.Collision.{reconcile-collision}
use cluster.Scenarios.World.{pipeline_key, stage_of, world, echo}
use cluster.Scenarios.Recovered.{stage_a, under_way}

-- A pipeline `p-stage-x`, and the pipeline `p`, of which a stage is called `x-stage-a`.
abbrev late : AgentPipeline
late = record under_way { meta = record under_way.meta { name = lit "p-stage-x" } }

abbrev stage_xa : StageSpec
stage_xa = stage_of (lit "x-stage-a") []

abbrev late_world : Env
late_world = world late echo

abbrev theirs : Trace
theirs =
    Call.create_or_update (output_config_map under_way (lit "x-stage-a") (lit "theirs"))
      (replace_output (lit "theirs")) none
    ∷ []

reconcile-collision_example :
    let after = (reconcile late_world pipeline_key theirs).1 in
    let t2 =
      Call.get_config_map (own_output late stage_a) ∷ Call.get_pipeline pipeline_key ∷ theirs in
    (late.meta.name ≢ under_way.meta.name)
    × (requests after ≡ requests theirs)
    × Written late_world t2
        (recovered (late_world.now t2) late 0 stage_a (init_stage stage_a) (lit "theirs"))
        (stored late theirs)
        (stored late after)
unfolding stored find_current_stage find_loop select are_dependencies_met output_config_map
    replace_output output_config_map_name str_eq lit
reconcile-collision_example =
    reconcile-collision late_world pipeline_key late late under_way theirs 0 stage_a stage_xa
      (init_stage stage_a) (lit "x") (lit "theirs") refl refl refl refl refl refl refl refl refl
      (
        replace_output (lit "theirs")
            (output_config_map under_way (lit "x-stage-a") (lit "theirs")),
        refl,
        refl,
      )
