-- ===== src/Scenarios/Deadlock.antt =====
-- A pipeline of one stage that depends on itself.
use cluster.Prelude.{◌≡◌, refl, pos, false, lit, [], ◌∷◌, ◌≢◌, refl, inl, arith}
use cluster.Api.{PipelinePhase, StageSpec, AgentPipeline}
use cluster.Controller.Env.{FinalizerLaws}
use cluster.Controller.Stages.{effective_policy, init_stage}
use cluster.Controller.Server.{stored, requests, IsConsistent, passes}
use cluster.Controller.Earned.{InOrder}
use cluster.Controller.Selection.{CompletedIn, here, there}
use cluster.Controller.Outcome.{Outcome}
use cluster.Controller.Reconciler.{reconcile}
use cluster.Controller.Stuck.{Waits, passes-Waits}
use cluster.Controller.Waiting.{passes-never_completed}
use cluster.Scenarios.World.{pipeline_key, stage_of, demo, world, echo, demo-FinalizerLaws}

abbrev stage_x : StageSpec
stage_x = stage_of (lit "x") (lit "x" ∷ [])

abbrev circular : AgentPipeline
circular = record demo { spec = record demo.spec { stages = stage_x ∷ [] } }

circular-world-IsConsistent : IsConsistent (world circular echo) pipeline_key circular
circular-world-IsConsistent = record { reads = λ t. refl }

circular-world-FinalizerLaws : FinalizerLaws (world circular echo)
circular-world-FinalizerLaws = record {
  added = demo-FinalizerLaws.added;
  removed = demo-FinalizerLaws.removed;
  add_keeps = demo-FinalizerLaws.add_keeps;
  remove_keeps = demo-FinalizerLaws.remove_keeps;
}

circular-unordered : ¬ InOrder [] circular.spec.stages
circular-unordered (among, rest) = elim among.0 [ ]

passes-never_completed_example :
    (stored circular (passes (world circular echo) pipeline_key 100 [])).status.phase
    ≢ PipelinePhase.completed
unfolding stored effective_policy
passes-never_completed_example =
    passes-never_completed (world circular echo) pipeline_key circular 100 []
      circular-world-FinalizerLaws circular-world-IsConsistent (omega arith, tt) (inl refl)
      circular-unordered

-- The same pipeline once it runs.
abbrev circling : AgentPipeline
circling = record circular {
  status = record demo.status { phase = PipelinePhase.running; stages = init_stage stage_x ∷ [] };
}

circling-Waits : Waits circling
circling-Waits = record {
  alive = refl;
  running = refl;
  front = [];
  current = init_stage stage_x;
  back = [];
  spec = stage_x;
  dependency = lit "x";
  statuses = refl;
  closed = tt;
  unfinished = refl;
  in_spec = refl;
  needed = inl refl;
  missing = none_completed;
}
  where
    none_completed : ¬ CompletedIn (lit "x") (init_stage stage_x ∷ [])
    none_completed (here e h) = cc
    none_completed (there h) = elim h [ ]

circling-world-IsConsistent : IsConsistent (world circling echo) pipeline_key circling
circling-world-IsConsistent = record { reads = λ t. refl }

passes-Waits_example :
    let t' = passes (world circling echo) pipeline_key 100 [] in
    (stored circling t' ≡ circling)
    × (requests t' ≡ [])
    × ((reconcile (world circling echo) pipeline_key t').0
        ≡ Outcome.done (record { requeue = false; requeue_after = pos 10000000000 }))
unfolding stored requests
passes-Waits_example =
    passes-Waits (world circling echo) pipeline_key circling 100 [] circling-world-IsConsistent
      circling-Waits
