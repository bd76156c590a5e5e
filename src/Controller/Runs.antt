-- ===== src/Controller/Runs.antt =====
-- When the reconciler invokes an agent, and with what.
use cluster.Prelude.{
  pos, is_empty, if◌then◌else◌, Str, lit, ℕ, true, Option, none, some, List, ◌∷◌, ◌++◌, ◌≡◌, refl,
  subst, ◌⊎◌, inl, inr, Bool-cases,
}
use cluster.Api.{PipelinePhase, StagePhase, Time, StageSpec, StageStatus, AgentPipeline}
use cluster.Runner.Types.{Result, ok, err, Result-cases, RunRequest}
use cluster.Controller.Env.{
  EventType, Env, ObjectKey, Fetched, found, not_found, unreachable, Trace, Call, fetch, read,
  invoke, clock, record_event,
}
use cluster.Controller.Stages.{
  FoundStage, no_stage, stage, out_of_range, find_current_stage, are_dependencies_met,
  output_config_map_name,
}
use cluster.Controller.Handler.{
  PipelineContext, read_config_map_output, build_pipeline_context, render_prompt,
}
use cluster.Controller.Updates.{begin_stage}
use cluster.Controller.Reconciler.{
  agent_request, complete_stage_from_output, run_stage, prompt_stage, execute_stage,
  recover_or_execute, start_stage, handle_stage, handle_current, handle_running, handle_phase,
  handle_unless_deleted, handle_found, handle_fetched, reconcile,
}
use cluster.Controller.Server.{requests}
use cluster.Controller.Requests.{
  commit-requests, context_loop-requests, fail_stage-requests, handle_answer-requests,
  complete_pipeline-requests, fail_or_retry-requests, handle_pending-requests,
  handle_deletion-requests,
}

-- Where the output of a stage is kept.
abbrev pub own_output : AgentPipeline → StageSpec → ObjectKey
own_output p s = record {
  namespace = p.meta.namespace;
  name = output_config_map_name p.meta.name s.name;
}

-- What a stage's agent should be asked: by its name, in its namespace or that of the pipeline, for at
-- most its timeout or five minutes.
abbrev pub request_to : AgentPipeline → StageSpec → Str → RunRequest
request_to p s prompt = record {
  agent_name = s.agent_ref.name;
  namespace = if is_empty s.agent_ref.namespace then p.meta.namespace else s.agent_ref.namespace;
  prompt = prompt;
  timeout = elim s.timeout [ some d ↦ d | none ↦ pos 300000000000 ];
}

module _ (env : Env) where
  -- No request, or one, with a prompt that was rendered for the stage.
  data Asked (p : AgentPipeline) (s : StageSpec) (before : List RunRequest)
      : List RunRequest → Type 0 where
    unasked : {after : List RunRequest} → after ≡ before → Asked p s before after
    asked :
        {after : List RunRequest} (prompt : Str) (pc : PipelineContext)
        → render_prompt env s pc ≡ ok prompt
        → after ≡ request_to p s prompt ∷ before
        → Asked p s before after

  run_stage-Asked :
      (prompt : Result Str) (pc : PipelineContext) (p : AgentPipeline) (i : ℕ) (s : StageSpec)
      (c : StageStatus) (t : Trace)
      → render_prompt env s pc ≡ prompt
      → Asked p s (requests t) (requests (run_stage env prompt p i s c t).1)
  unfolding run_stage invoke requests agent_request
  run_stage-Asked (err e) pc p i s c t h = unasked (fail_stage-requests env p i c _ t)
  run_stage-Asked (ok prompt) pc p i s c t h =
      asked prompt pc h
        (handle_answer-requests env (env.run_agent t (request_to p s prompt)) p i s c _)

  prompt_stage-Asked :
      (context : Result PipelineContext) (p : AgentPipeline) (i : ℕ) (s : StageSpec)
      (c : StageStatus) (t : Trace)
      → Asked p s (requests t) (requests (prompt_stage env context p i s c t).1)
  unfolding prompt_stage
  prompt_stage-Asked (err e) p i s c t = unasked (fail_stage-requests env p i c _ t)
  prompt_stage-Asked (ok pc) p i s c t = run_stage-Asked (render_prompt env s pc) pc p i s c t refl

  Asked-from :
      {p : AgentPipeline} {s : StageSpec} {before mid after : List RunRequest}
      → mid ≡ before
      → Asked p s mid after
      → Asked p s before after
  Asked-from {p} {s} {after = after} e h = subst (λ x. Asked p s x after) e h

  execute_stage-Asked :
      (p : AgentPipeline) (i : ℕ) (s : StageSpec) (c : StageStatus) (t : Trace)
      → Asked p s (requests t) (requests (execute_stage env p i s c t).1)
  unfolding execute_stage record_event build_pipeline_context requests
  execute_stage-Asked p i s c t =
      let b = build_pipeline_context env p s (
        Call.event EventType.normal (lit "StageStarted") (
          lit "Stage "
          ++ (env.quote s.name ++ (lit " started (agent: " ++ (s.agent_ref.name ++ lit ")"))))
        ∷ t) in
      Asked-from (context_loop-requests env p s 0 p.status.stages _ _)
        (prompt_stage-Asked b.0 p i s c b.1)

  begun-Asked :
      {p : AgentPipeline} {s : StageSpec} {before after : List RunRequest} (now : Time) (i : ℕ)
      (c : StageStatus)
      → Asked (begin_stage now i s c p) s before after
      → Asked p s before after
  unfolding begin_stage agent_request
  begun-Asked now i c (unasked e) = unasked e
  begun-Asked now i c (asked prompt pc h e) = asked prompt pc h e

  -- What a pass from the trace `t` may have asked when the requests are `after`.
  pub data Ran (key : ObjectKey) (t : Trace) (after : List RunRequest) : Type 0 where
    no_run : after ≡ requests t → Ran key t after
    one_run :
        (p : AgentPipeline) (i : ℕ) (s : StageSpec) (c : StageStatus) (e prompt : Str)
        (pc : PipelineContext)
        → env.get_pipeline t key ≡ found p
        → p.meta.deletion_timestamp ≡ none
        → p.status.phase ≡ PipelinePhase.running
        → find_current_stage p ≡ stage i s c
        → are_dependencies_met p s ≡ true
        → c.phase ≡ StagePhase.pending
        → env.get_config_map (Call.get_pipeline key ∷ t) (own_output p s) ≡ err e
        → render_prompt env s pc ≡ ok prompt
        → after ≡ request_to p s prompt ∷ requests t
        → Ran key t after

  start_stage-Asked :
      (p : AgentPipeline) (i : ℕ) (s : StageSpec) (c : StageStatus) (t : Trace)
      → (requests (start_stage env p i s c t).1 ≡ requests t)
        ⊎ ((e : Str) × (env.get_config_map t (own_output p s) ≡ err e)
            × Asked p s (requests t) (requests (start_stage env p i s c t).1))
  unfolding start_stage read_config_map_output read recover_or_execute clock requests
  start_stage-Asked p i s c t = elim (Result-cases (env.get_config_map t (own_output p s))) [
    | inl (cm, h) ↦ inl (
        rw (h, start_stage, recover_or_execute)
          (unfold complete_stage_from_output in commit-requests env _ _ _ _ _ _ _))
    | inr (e, h) ↦ inr (
      e,
      h,
      rw (h, start_stage, recover_or_execute) (begun-Asked _ i c (execute_stage-Asked _ i s _ _)),
    )
  ]

  module _ (key : ObjectKey) (t : Trace) (p : AgentPipeline)
      (there : env.get_pipeline t key ≡ found p) where
    abbrev at : Trace
    at = Call.get_pipeline key ∷ t

    module _ (alive : p.meta.deletion_timestamp ≡ none) where
      module _ (running : p.status.phase ≡ PipelinePhase.running) where
        handle_stage-Ran :
            (i : ℕ) (s : StageSpec) (c : StageStatus) (phase : StagePhase)
            → find_current_stage p ≡ stage i s c
            → are_dependencies_met p s ≡ true
            → c.phase ≡ phase
            → Ran key t (requests (handle_stage env phase p i s c at).1)
        unfolding handle_stage requests
        handle_stage-Ran i s c StagePhase.pending current met h =
            elim (start_stage-Asked p i s c at) [
              | inl same ↦ no_run same
              | inr (e, unread, unasked same) ↦ no_run same
              | inr (e, unread, asked prompt pc rendered after) ↦
                  one_run p i s c e prompt pc there alive running current met h unread rendered
                    after
            ]
        handle_stage-Ran i s c StagePhase.failed current met h =
            no_run (fail_or_retry-requests env p i s c at)
        handle_stage-Ran i s c _ current met h = no_run refl

        handle_current-Ran :
            (current : FoundStage)
            → find_current_stage p ≡ current
            → Ran key t (requests (handle_current env current p at).1)
        unfolding handle_current requests
        handle_current-Ran no_stage h = no_run (complete_pipeline-requests env p at)
        handle_current-Ran out_of_range h = no_run refl
        handle_current-Ran (stage i s c) h = elim (Bool-cases (are_dependencies_met p s)) [
          | inl met ↦ rw (met, handle_current) (handle_stage-Ran i s c c.phase h met refl)
          | inr unmet ↦ rw (unmet, handle_current) (no_run refl)
        ]

      handle_phase-Ran :
          (phase : PipelinePhase)
          → p.status.phase ≡ phase
          → Ran key t (requests (handle_phase env phase p at).1)
      unfolding handle_phase handle_running requests
      handle_phase-Ran PipelinePhase.unset h = no_run (handle_pending-requests env p at)
      handle_phase-Ran PipelinePhase.pending h = no_run (handle_pending-requests env p at)
      handle_phase-Ran PipelinePhase.running h = handle_current-Ran h (find_current_stage p) refl
      handle_phase-Ran _ h = no_run refl

    handle_unless_deleted-Ran :
        (time : Option Time)
        → p.meta.deletion_timestamp ≡ time
        → Ran key t (requests (handle_unless_deleted env time p at).1)
    unfolding handle_unless_deleted requests
    handle_unless_deleted-Ran none h = handle_phase-Ran h p.status.phase refl
    handle_unless_deleted-Ran (some _) h = no_run (handle_deletion-requests env p at)

  handle_fetched-Ran :
      (key : ObjectKey) (t : Trace) (answer : Fetched)
      → env.get_pipeline t key ≡ answer
      → Ran key t (requests (handle_fetched env answer (Call.get_pipeline key ∷ t)).1)
  unfolding handle_fetched handle_found requests
  handle_fetched-Ran key t (found p) h =
      handle_unless_deleted-Ran key t p h p.meta.deletion_timestamp refl
  handle_fetched-Ran key t not_found h = no_run refl
  handle_fetched-Ran key t (unreachable e) h = no_run refl

  -- A pass asks no agent, or it asks one, once, and that only for the current stage of a pipeline
  -- that is Running and not being deleted, where the stage is pending, its dependencies are met and
  -- the ConfigMap of its output cannot be read; the request is the stage's, with a prompt that was
  -- rendered for it.
  pub reconcile-Ran : (key : ObjectKey) (t : Trace) → Ran key t (requests (reconcile env key t).1)
  unfolding reconcile fetch
  reconcile-Ran key t = handle_fetched-Ran key t (env.get_pipeline t key) refl
