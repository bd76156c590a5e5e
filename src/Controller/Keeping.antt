-- ===== src/Controller/Keeping.antt =====
-- What the Kubernetes API documents of ConfigMaps, and which calls leave them as they are.
use cluster.Prelude.{
  Str, str_eq, ℕ, suc, Bool, false, not, ◌&&◌, ◌||◌, none, List, [], ◌∷◌, ◌≡◌, refl, ◌∙◌, inl, inr,
  is_empty, Option-cases, Bool-cases,
}
use cluster.Api.{StageSpec, StageStatus, AgentPipeline, is_completed}
use cluster.Runner.Types.{Result, ok, err}
use cluster.Controller.Env.{
  EventType, Env, ObjectKey, ConfigMap, Trace, Call, M, read, store, write_status, clock,
  record_event,
}
use cluster.Controller.Stages.{output_config_map_name, truncate_output}
use cluster.Controller.Handler.{
  PipelineContext, or_return, context_step, context_loop, read_config_map_output, output_config_map,
  replace_output, store_output,
}
use cluster.Controller.Outcome.{Outcome}
use cluster.Controller.Reconciler.{commit, complete_pipeline}
use cluster.Controller.Runs.{own_output}

abbrev pub key_of : ConfigMap → ObjectKey
key_of cm = record { namespace = cm.meta.namespace; name = cm.meta.name }

abbrev pub same_key : ObjectKey → ObjectKey → Bool
same_key j k = str_eq j.namespace k.namespace && str_eq j.name k.name

-- An accepted write of that ConfigMap.
abbrev pub writes_key : Call → ObjectKey → Bool
writes_key (Call.create_or_update cm mutate none) k = same_key (key_of cm) k
writes_key _ k = false

-- CreateOrUpdate leaves what its mutate function makes of the object that is there or of the one
-- that it is given; nobody else writes ConfigMaps; SetControllerReference renames nothing.
pub record KeepsConfigMaps (env : Env) : Type 0 where
  pub written :
      (t : Trace) (cm : ConfigMap) (mutate : ConfigMap → ConfigMap)
      → env.create_or_update t cm mutate ≡ none
      → (base : ConfigMap) × (env.get_config_map
            (Call.create_or_update cm mutate none ∷ t)
            (key_of cm)
          ≡ ok (mutate base))
  pub untouched :
      (t : Trace) (c : Call) (k : ObjectKey)
      → writes_key c k ≡ false
      → env.get_config_map (c ∷ t) k ≡ env.get_config_map t k
  pub owned :
      (p : AgentPipeline) (cm cm' : ConfigMap)
      → env.set_controller_reference p cm ≡ ok cm'
      → key_of cm' ≡ key_of cm

-- No write of a ConfigMap is refused.
pub record AcceptsConfigMaps (env : Env) : Type 0 where
  pub stores :
      (t : Trace) (cm : ConfigMap) (mutate : ConfigMap → ConfigMap)
      → env.create_or_update t cm mutate ≡ none
  pub owns :
      (p : AgentPipeline) (cm : ConfigMap)
      → (cm' : ConfigMap) × (env.set_controller_reference p cm ≡ ok cm')

-- An output is stored under the name of its stage.
pub store_output_lem :
    (env : Env)
    → AcceptsConfigMaps env
    → KeepsConfigMaps env
    → (p : AgentPipeline) (s : StageSpec) (output : Str) (t : Trace)
    → (cm : ConfigMap) × (key_of cm ≡ own_output p s)
      × (store_output env p s.name output t ≡ (
        ok (output_config_map_name p.meta.name s.name, truncate_output output),
        Call.create_or_update cm (replace_output output) none ∷ t,
      ))
unfolding store_output store output_config_map
store_output_lem env accepts keeps p s output t =
    let owned = accepts.owns p (output_config_map p s.name output) in
    (
      owned.0,
      keeps.owned p (output_config_map p s.name output) owned.0 owned.1,
      rw (owned.1, accepts.stores t owned.0 (replace_output output), store_output) refl,
    )

module _ (env : Env) (keeps : KeepsConfigMaps env) (k : ObjectKey) where
  pub context_step-get_config_map :
      (p : AgentPipeline) (s : StageSpec) (i : ℕ) (c : StageStatus) (pc : PipelineContext)
      (t : Trace)
      → env.get_config_map (context_step env p s i c pc t).1 k ≡ env.get_config_map t k
  unfolding context_step read_config_map_output read
  context_step-get_config_map p s i c pc t =
      elim (Bool-cases (not (is_completed c.phase) || is_empty c.output_ref)) [
        | inl h ↦ rw (h, context_step) refl
        | inr h ↦ rw (h, context_step) (keeps.untouched t _ k refl)
      ]

  or_return-get_config_map :
      {A B : Type 0} (r : Result A) (rest : A → M (Result B)) (t : Trace)
      → ((a : A) → env.get_config_map (rest a t).1 k ≡ env.get_config_map t k)
      → env.get_config_map (or_return r rest t).1 k ≡ env.get_config_map t k
  or_return-get_config_map (ok a) rest t h = h a
  or_return-get_config_map (err e) rest t h = refl

  -- Building a context changes no ConfigMap.
  pub context_loop-get_config_map :
      (p : AgentPipeline) (s : StageSpec) (i : ℕ) (cs : List StageStatus) (pc : PipelineContext)
      (t : Trace)
      → env.get_config_map (context_loop env p s i cs pc t).1 k ≡ env.get_config_map t k
  unfolding context_loop
  context_loop-get_config_map p s i [] pc t = refl
  context_loop-get_config_map p s i (c ∷ cs) pc t =
      let r = context_step env p s i c pc t in
      or_return-get_config_map r.0 (context_loop env p s (suc i) cs) r.1
        (λ pc'. context_loop-get_config_map p s (suc i) cs pc' r.1)
      ∙ context_step-get_config_map p s i c pc t

  -- Nor does a write of the status.
  pub commit-get_config_map :
      (q : AgentPipeline) (prefix : Str) (type : EventType) (reason message : Str) (o : Outcome)
      (t : Trace)
      → env.get_config_map (commit env q prefix type reason message o t).1 k
        ≡ env.get_config_map t k
  unfolding commit write_status record_event
  commit-get_config_map q prefix type reason message o t =
      elim (Option-cases (env.status_update t q)) [
        | inl h ↦ rw (h, commit) (keeps.untouched _ _ k refl ∙ keeps.untouched t _ k refl)
        | inr (e, h) ↦ rw (h, commit) (keeps.untouched t _ k refl)
      ]

  pub complete_pipeline-get_config_map :
      (p : AgentPipeline) (t : Trace)
      → env.get_config_map (complete_pipeline env p t).1 k ≡ env.get_config_map t k
  unfolding complete_pipeline clock
  complete_pipeline-get_config_map p t = commit-get_config_map _ _ _ _ _ _ t
