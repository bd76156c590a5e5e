-- ===== src/Controller/Writes.antt =====
-- What each method of the reconciler leaves in the stored pipeline: one lemma for each method.
use cluster.Prelude.{
  Str, none, some, ℕ, suc, List, [], ◌∷◌, ◌≡◌, refl, ◌∙◌, ◌⊎◌, inl, inr, arith, Option-cases,
}
use cluster.Api.{StageSpec, StageStatus, RetryPolicy, AgentPipelineStatus, AgentPipeline}
use cluster.Runner.Types.{Result, ok, err, Result-cases}
use cluster.Controller.Env.{
  EventType, Env, Trace, M, read, write_status, store, clock, record_event,
}
use cluster.Controller.Stages.{set_stage, truncate_output, output_config_map_name}
use cluster.Controller.Handler.{
  PipelineContext, read_config_map_output, context_loop, context_step, or_return, store_output,
  output_config_map, replace_output,
}
use cluster.Controller.Outcome.{Outcome}
use cluster.Controller.Updates.{end_pipeline, abort_pipeline, abort_stage, reset_stage, end_stage}
use cluster.Controller.Reconciler.{
  commit, complete_pipeline, fail_pipeline, fail_stage, retry_stage, complete_stage_from_output,
}
use cluster.Controller.Steps.{Fault, status_refused, store_refused, owner_refused}
use cluster.Controller.Server.{stored}

-- The stored pipeline is as before, for a fault, or it has the status `st`.
abbrev pub MayWrite : Env → AgentPipeline → AgentPipeline → AgentPipelineStatus → Type 0
MayWrite env old new st = (Fault env × (new ≡ old)) ⊎ (new ≡ record old { status = st })

-- A write of the status of `q` behind the calls `t`: it is accepted, and the stored pipeline has that
-- status, or it is refused, and the stored pipeline is as before.
abbrev pub Written : Env → Trace → AgentPipeline → AgentPipeline → AgentPipeline → Type 0
Written env t q old new =
    ((env.status_update t q ≡ none) × (new ≡ record old { status = q.status }))
    ⊎ ((e : Str) × (env.status_update t q ≡ some e) × (new ≡ old))

module _ (env : Env) (p0 : AgentPipeline) where
  pub commit-Written :
      (q : AgentPipeline) (prefix : Str) (type : EventType) (reason message : Str) (o : Outcome)
      (t : Trace)
      → Written env t q (stored p0 t) (stored p0 (commit env q prefix type reason message o t).1)
  unfolding commit write_status record_event stored
  commit-Written q prefix type reason message o t = elim (Option-cases (env.status_update t q)) [
    | inl accepted ↦ inl (accepted, rw (accepted, commit, stored))
    | inr (e, refused) ↦ inr (e, refused, rw (refused, commit, stored))
  ]

  pub commit-MayWrite :
      (q : AgentPipeline) (prefix : Str) (type : EventType) (reason message : Str) (o : Outcome)
      (t : Trace)
      → MayWrite env
          (stored p0 t)
          (stored p0 (commit env q prefix type reason message o t).1)
          q.status
  commit-MayWrite q prefix type reason message o t =
      elim (commit-Written q prefix type reason message o t) [
        | inl (accepted, new) ↦ inr new
        | inr (e, refused, same) ↦ inl (status_refused t q e refused, same)
      ]

  pub context_step-stored :
      (p : AgentPipeline) (s : StageSpec) (i : ℕ) (c : StageStatus) (pc : PipelineContext)
      (t : Trace)
      → stored p0 (context_step env p s i c pc t).1 ≡ stored p0 t
  unfolding context_step stored read_config_map_output read
  context_step-stored p s i c pc t = ground arith

  pub or_return-stored :
      {A B : Type 0} (r : Result A) (rest : A → M (Result B)) (t : Trace)
      → ((a : A) → stored p0 (rest a t).1 ≡ stored p0 t)
      → stored p0 (or_return r rest t).1 ≡ stored p0 t
  or_return-stored (ok a) rest t h = h a
  or_return-stored (err e) rest t h = refl

  pub context_loop-stored :
      (p : AgentPipeline) (s : StageSpec) (i : ℕ) (cs : List StageStatus) (pc : PipelineContext)
      (t : Trace)
      → stored p0 (context_loop env p s i cs pc t).1 ≡ stored p0 t
  unfolding context_loop
  context_loop-stored p s i [] pc t = refl
  context_loop-stored p s i (c ∷ cs) pc t =
      let r = context_step env p s i c pc t in
      or_return-stored r.0 (context_loop env p s (suc i) cs) r.1
        (λ pc'. context_loop-stored p s (suc i) cs pc' r.1)
      ∙ context_step-stored p s i c pc t

  pub complete_pipeline-MayWrite :
      (p : AgentPipeline) (t : Trace)
      → MayWrite env
          (stored p0 t)
          (stored p0 (complete_pipeline env p t).1)
          (end_pipeline env (env.now t) p).status
  unfolding complete_pipeline clock
  complete_pipeline-MayWrite p t = commit-MayWrite _ _ _ _ _ _ t

  pub fail_pipeline-MayWrite :
      (p : AgentPipeline) (reason : Str) (t : Trace)
      → MayWrite env
          (stored p0 t)
          (stored p0 (fail_pipeline env p reason t).1)
          (abort_pipeline env (env.now t) reason p).status
  unfolding fail_pipeline clock
  fail_pipeline-MayWrite p reason t = commit-MayWrite _ _ _ _ _ _ t

  pub fail_stage-MayWrite :
      (p : AgentPipeline) (i : ℕ) (c : StageStatus) (message : Str) (t : Trace)
      → MayWrite env
          (stored p0 t)
          (stored p0 (fail_stage env p i c message t).1)
          (set_stage p i (abort_stage (env.now t) message c)).status
  unfolding fail_stage clock
  fail_stage-MayWrite p i c message t = commit-MayWrite _ _ _ _ _ _ t

  pub retry_stage-MayWrite :
      (p : AgentPipeline) (i : ℕ) (s : StageSpec) (c : StageStatus) (policy : RetryPolicy)
      (t : Trace)
      → MayWrite env
          (stored p0 t)
          (stored p0 (retry_stage env p i s c policy t).1)
          (set_stage p i (reset_stage c)).status
  unfolding retry_stage clock
  retry_stage-MayWrite p i s c policy t = commit-MayWrite _ _ _ _ _ _ t

  pub complete_stage_from_output-MayWrite :
      (p : AgentPipeline) (i : ℕ) (s : StageSpec) (c : StageStatus) (output : Str) (t : Trace)
      → MayWrite env
          (stored p0 t)
          (stored p0 (complete_stage_from_output env p i s c output t).1)
          (set_stage p i (
            end_stage
              (env.now t)
              (truncate_output output)
              (output_config_map_name p.meta.name s.name)
              c)).status
  unfolding complete_stage_from_output clock
  complete_stage_from_output-MayWrite p i s c output t = commit-MayWrite _ _ _ _ _ _ t

  pub store_output-stored :
      (p : AgentPipeline) (name output : Str) (t : Trace)
      → stored p0 (store_output env p name output t).1 ≡ stored p0 t
  unfolding store_output stored store
  store_output-stored p name output t = ground arith

  -- An error of `StoreOutput` is a fault.
  pub store_output-Fault :
      (p : AgentPipeline) (name output : Str) (t : Trace) (e : Str)
      → (store_output env p name output t).0 ≡ err e
      → Fault env
  unfolding store_output store
  store_output-Fault p name output t e h =
      elim (Result-cases (env.set_controller_reference p (output_config_map p name output))) [
        | inr (x, refused) ↦ owner_refused p _ x refused
        | inl (cm, owned) ↦
            elim (Option-cases (env.create_or_update t cm (replace_output output))) [
              | inr (x, refused) ↦ store_refused t cm (replace_output output) x refused
              | inl accepted ↦ absurd (ground arith)
            ]
      ]

  pub store_output-names :
      (p : AgentPipeline) (name output : Str) (t : Trace) (stored : Str × Str)
      → (store_output env p name output t).0 ≡ ok stored
      → stored ≡ (output_config_map_name p.meta.name name, truncate_output output)
  unfolding store_output store
  store_output-names p name output t st h = ground arith
