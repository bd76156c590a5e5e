-- ===== src/Scenarios/Delivered.antt =====
-- A pipeline of two stages whose agents answer, to its end.
use cluster.Prelude.{
  inl, Str, lit, str_eq, is_empty, not, pos, [], ◌∷◌, ◌++◌, ◌≡◌, refl, arith, if◌then◌else◌,
}
use cluster.Api.{PipelinePhase, StageSpec}
use cluster.Runner.Types.{ok, RunStatus, RunRequest, RunResult}
use cluster.Controller.Stages.{contains, all_in}
use cluster.Controller.Handler.{PipelineContext, insert, render_prompt, run_template}
use cluster.Controller.Reconciler.{agent_request}
use cluster.Controller.Server.{stored, requests, passes}
use cluster.Controller.Delivery.{requests_for, outputs_for}
use cluster.Controller.Beginning.{adorned}
use cluster.Controller.WholeRuns.{AllKept}
use cluster.Controller.EndToEnd.{passes-AllKept}
use cluster.Scenarios.World.{
  stage_of, demo, demo_world, demo-IsConsistent, demo-faultless, demo-FinalizerLaws, pipeline_key,
  kept-written, kept-untouched,
}

abbrev answer : RunRequest → RunResult
answer req = record {
  task_id = lit "task";
  output = req.prompt ++ lit "!";
  status = RunStatus.completed;
  duration = pos 0;
  error = [];
}

abbrev prompt_of : StageSpec → PipelineContext → Str
prompt_of s pc =
    if is_empty s.prompt
    then if not (is_empty pc.previous_output)
      then pc.previous_output
      else lit "Execute agent " ++ s.agent_ref.name
    else s.prompt

prompt_of-render_prompt :
    (s : StageSpec) (pc : PipelineContext) → render_prompt demo_world s pc ≡ ok (prompt_of s pc)
unfolding render_prompt run_template
prompt_of-render_prompt s pc = ground arith

-- The second stage is given the output of the first.
outputs_for-demo :
    outputs_for answer prompt_of demo [] demo.spec.stages
    ≡ (lit "a", lit "Execute agent a-agent!") ∷ (lit "b", lit "Execute agent a-agent!!") ∷ []
unfolding agent_request insert lit str_eq
outputs_for-demo = refl

passes-AllKept_example :
    let q = adorned demo_world demo in
    let after = passes demo_world pipeline_key 5 [] in
    ((stored demo after).status.phase ≡ PipelinePhase.completed)
    × (requests after ≡ requests_for answer prompt_of q [] demo.spec.stages [])
    × AllKept demo_world q.meta after (outputs_for answer prompt_of q [] demo.spec.stages)
unfolding contains all_in lit str_eq
passes-AllKept_example =
    passes-AllKept demo_world pipeline_key demo answer prompt_of (stage_of (lit "a") [])
      (stage_of (lit "b") (lit "a" ∷ []) ∷ []) demo-IsConsistent
      (record { stores = λ t cm mutate. refl; owns = λ p cm. (cm, refl) })
      (record {
        written = λ t cm mutate accepted. kept-written t cm mutate;
        untouched = λ t c k h. kept-untouched t c k h;
        owned = λ p cm cm' h. cc h;
      })
      demo-faultless demo-FinalizerLaws refl (inl refl) refl refl (refl, (refl, tt))
      (refl, (refl, tt)) ((lit "not found", refl), ((lit "not found", refl), tt)) (λ t req. refl)
      (λ req. refl) prompt_of-render_prompt
