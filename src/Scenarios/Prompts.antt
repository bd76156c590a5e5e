-- ===== src/Scenarios/Prompts.antt =====
-- A pipeline whose first stage is completed: the prompt context of the second, and what stays.
use cluster.Prelude.{none, Str, lit, [], ◌∷◌, ◌++◌, str_eq, ◌≡◌, refl}
use cluster.Api.{PipelinePhase, StagePhase, StageSpec, StageStatus, AgentPipeline}
use cluster.Runner.Types.{ok}
use cluster.Controller.Env.{Env, Trace, Call, ConfigMap}
use cluster.Controller.Stages.{output_config_map_name, init_stage}
use cluster.Controller.Handler.{
  PipelineContext, output_config_map, replace_output, is_just_before, lookup_or_empty, stage_output,
  build_pipeline_context,
}
use cluster.Controller.Contexts.{
  Readable, all_read, without, holding, held, last_output, output_before,
  build_pipeline_context_lem,
}
use cluster.Controller.Keeping.{KeepsConfigMaps}
use cluster.Scenarios.World.{
  pipeline_key, stage_of, demo, kept-written, kept-untouched, world, echo,
}
use cluster.Controller.Server.{stored, IsConsistent, passes}
use cluster.Controller.Durable.{Holds, passes-Holds}

abbrev stage_b : StageSpec
stage_b = stage_of (lit "b") (lit "a" ∷ [])

abbrev completed_a : StageStatus
completed_a = record (init_stage (stage_of (lit "a") [])) {
  phase = StagePhase.completed;
  output_ref = lit "p-stage-a";
}

abbrev half_done : AgentPipeline
half_done = record demo {
  status = record demo.status {
    phase = PipelinePhase.running;
    stages = completed_a ∷ init_stage stage_b ∷ [];
  };
}

abbrev demo_maps : Str → ConfigMap
demo_maps ref = output_config_map demo (lit "a") (ref ++ lit "!")

abbrev half_world : Env
half_world = world half_done echo

half_world-KeepsConfigMaps : KeepsConfigMaps half_world
half_world-KeepsConfigMaps = record {
  written = λ t cm mutate accepted. kept-written t cm mutate;
  untouched = λ t c k h. kept-untouched t c k h;
  owned = λ p cm cm' h. cc h;
}

-- The first stage has stored its output.
abbrev stored_a : Trace
stored_a =
    Call.create_or_update (demo_maps (lit "p-stage-a")) (replace_output (lit "p-stage-a!")) none
    ∷ []

stored_a-Readable : Readable half_world (lit "ops") demo_maps stored_a half_done.status.stages
unfolding output_config_map replace_output output_config_map_name lit str_eq
stored_a-Readable = holding {c = completed_a} refl (without refl all_read)

build_pipeline_context_lem_example :
    (pc : PipelineContext) × ((build_pipeline_context half_world half_done stage_b stored_a).0
      ≡ ok pc)
    × (pc.inputs ≡ [])
    × (pc.previous_output
        ≡ output_before (held demo_maps) half_done.spec.stages stage_b 0 half_done.status.stages [])
    × ((name : Str)
        → stage_output pc name ≡ last_output (held demo_maps) name half_done.status.stages [])
build_pipeline_context_lem_example =
    build_pipeline_context_lem half_world half_world-KeepsConfigMaps half_done stage_b demo_maps
      stored_a stored_a-Readable

-- The second stage is given the output of the first.
stage_b_previous :
    output_before (held demo_maps) half_done.spec.stages stage_b 0 half_done.status.stages []
    ≡ lit "p-stage-a!"
unfolding output_config_map is_just_before str_eq lookup_or_empty lit
stage_b_previous = refl

half_done-IsConsistent : IsConsistent (world half_done echo) pipeline_key half_done
half_done-IsConsistent = record { reads = λ t. refl }

passes-Holds_example :
    Holds 0 completed_a (stored half_done (passes (world half_done echo) pipeline_key 3 []))
unfolding stored
passes-Holds_example =
    passes-Holds (world half_done echo) pipeline_key half_done 3 [] 0 completed_a
      half_done-IsConsistent refl (record { begun = refl; there = refl })
