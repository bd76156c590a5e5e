-- ===== src/Controller/Handover.antt =====
-- The context of a stage's prompt as a function of the outputs of the stages before it.
use cluster.Prelude.{
  Str, str_eq, lit, ℕ, suc, false, List, [], ◌∷◌, ◌++◌, is_empty, ◌≡◌, refl, ap, ◌∙◌, if◌then◌else◌,
}
use cluster.Api.{
  StrMap, StagePhase, StageSpec, StageStatus, ObjectMeta, AgentPipeline, is_completed,
}
use cluster.Runner.Types.{ok}
use cluster.Controller.Env.{Env, ObjectKey, ConfigMap, Trace, read}
use cluster.Controller.Stages.{output_config_map_name, init_stages}
use cluster.Controller.Handler.{
  PipelineContext, lookup_or_empty, insert, collect, replace_output, or_return,
  read_config_map_output, context_step, context_loop,
}
use cluster.Controller.Contexts.{is_followed_by, is_just_before-is_followed_by}
use cluster.Controller.Keeping.{KeepsConfigMaps, context_step-get_config_map}
use cluster.Controller.Deliveries.{Delivery, statuses_of}

-- The names of stages with their outputs, in order.
abbrev pub outputs_of : List Delivery → StrMap
outputs_of [] = []
outputs_of (d ∷ ds) = (d.spec.name, d.output) ∷ outputs_of ds

-- The outputs from index `i` on, gathered into a context: each under its name, and that of the stage
-- just before `s` as the previous one.
abbrev pub gather : List StageSpec → StageSpec → ℕ → StrMap → PipelineContext → PipelineContext
gather specs s i [] pc = pc
gather specs s i ((name, output) ∷ outs) pc = gather specs s (suc i) outs (record pc {
  stage_outputs = insert name output pc.stage_outputs;
  previous_output = if is_followed_by specs i s.name then output else pc.previous_output;
})

abbrev pub context_of : List StageSpec → StageSpec → StrMap → PipelineContext
context_of specs s outs =
    gather specs s 0 outs (record { previous_output = []; inputs = s.inputs; stage_outputs = [] })

abbrev pub output_key : ObjectMeta → Str → ObjectKey
output_key m name = record { namespace = m.namespace; name = output_config_map_name m.name name }

-- At `t` the stage is completed and its ConfigMap holds its output.
pub record Delivered (env : Env) (m : ObjectMeta) (t : Trace) (d : Delivery) : Type 0 where
  pub phase : d.status.phase ≡ StagePhase.completed
  pub named : d.status.name ≡ d.spec.name
  pub output_ref : d.status.output_ref ≡ output_config_map_name m.name d.spec.name
  pub base : ConfigMap
  pub kept : env.get_config_map t (output_key m d.spec.name) ≡ ok (replace_output d.output base)

abbrev pub AllDelivered : Env → ObjectMeta → Trace → List Delivery → Type 0
AllDelivered env m t [] = Unit
AllDelivered env m t (d ∷ ds) = Delivered env m t d × AllDelivered env m t ds

output_config_map_name-is_empty : (p s : Str) → is_empty (output_config_map_name p s) ≡ false
unfolding output_config_map_name lit
output_config_map_name-is_empty [] s = refl
output_config_map_name-is_empty (b ∷ p) s = refl

module _ (env : Env) (keeps : KeepsConfigMaps env) (m : ObjectMeta) where
  pub AllDelivered-later :
      (t t' : Trace) (ds : List Delivery)
      → ((k : ObjectKey) → env.get_config_map t' k ≡ env.get_config_map t k)
      → AllDelivered env m t ds
      → AllDelivered env m t' ds
  AllDelivered-later t t' [] same all = tt
  AllDelivered-later t t' (d ∷ ds) same (at, rest) = (
    record {
      phase = at.phase;
      named = at.named;
      output_ref = at.output_ref;
      base = at.base;
      kept = same (output_key m d.spec.name) ∙ at.kept;
    },
    AllDelivered-later t t' ds same rest,
  )

  module _ (p : AgentPipeline) (same_meta : p.meta ≡ m) (s : StageSpec) where
    abbrev next : ℕ → Str → Str → PipelineContext → PipelineContext
    next i name output pc = record pc {
      stage_outputs = insert name output pc.stage_outputs;
      previous_output =
          if is_followed_by p.spec.stages i s.name then output else pc.previous_output;
    }

    context_step-Delivered :
        (i : ℕ) (d : Delivery) (pc : PipelineContext) (t : Trace)
        → Delivered env m t d
        → (context_step env p s i d.status pc t).0 ≡ ok (next i d.spec.name d.output pc)
    unfolding context_step read_config_map_output read collect replace_output lookup_or_empty lit
        str_eq
    context_step-Delivered i d pc t at =
        let full : is_empty (output_config_map_name m.name d.spec.name) ≡ false =
          output_config_map_name-is_empty m.name d.spec.name in
        rw
          (
            at.phase,
            at.output_ref,
            full,
            same_meta,
            at.kept,
            at.named,
            is_just_before-is_followed_by p.spec.stages i s,
            context_step,
          )
          refl

    -- Stages that are not completed give nothing.
    context_loop-init_stages :
        (i : ℕ) (rest : List StageSpec) (pc : PipelineContext) (t : Trace)
        → (context_loop env p s i (init_stages rest) pc t).0 ≡ ok pc
    unfolding context_loop context_step init_stages
    context_loop-init_stages i [] pc t = refl
    context_loop-init_stages i (r ∷ rest) pc t = context_loop-init_stages (suc i) rest pc t

    context_loop-open :
        (i : ℕ) (c : StageStatus) (rest : List StageSpec) (pc : PipelineContext) (t : Trace)
        → is_completed c.phase ≡ false
        → (context_loop env p s i (c ∷ init_stages rest) pc t).0 ≡ ok pc
    unfolding context_loop context_step
    context_loop-open i c rest pc t h =
        rw (h, context_step) (context_loop-init_stages (suc i) rest pc t)

    pub context_loop-AllDelivered :
        (i : ℕ) (ds : List Delivery) (c : StageStatus) (rest : List StageSpec)
        (pc : PipelineContext) (t : Trace)
        → is_completed c.phase ≡ false
        → AllDelivered env m t ds
        → (context_loop env p s i (statuses_of ds ++ (c ∷ init_stages rest)) pc t).0
          ≡ ok (gather p.spec.stages s i (outputs_of ds) pc)
    unfolding context_loop
    context_loop-AllDelivered i [] c rest pc t h all = context_loop-open i c rest pc t h
    context_loop-AllDelivered i (d ∷ ds) c rest pc t h (at, all) =
        let r = context_step env p s i d.status pc t in
        let cs : List StageStatus = statuses_of ds ++ (c ∷ init_stages rest) in
        ap (λ x. (or_return x (λ pc'. context_loop env p s (suc i) cs pc') r.1).0)
          (context_step-Delivered i d pc t at)
        ∙ context_loop-AllDelivered (suc i) ds c rest (next i d.spec.name d.output pc) r.1 h (
            AllDelivered-later t r.1 ds
              (λ k. context_step-get_config_map env keeps k p s i d.status pc t) all)
