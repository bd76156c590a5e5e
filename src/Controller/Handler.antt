-- ===== src/Controller/Handler.antt =====
-- The methods of `StageHandler` in agentpipeline-operator/internal/controller/stage_handler.go:
-- prompts, the context of a prompt and the storing of outputs.
use cluster.Prelude.{
  Str, lit, str_eq, is_empty, ℕ, suc, Bool, false, ◌||◌, not, none, some, List, [], ◌∷◌, ◌++◌,
  get_elem?, if◌then◌else◌,
}
use cluster.Api.{StrMap, StageSpec, StageStatus, AgentPipeline, is_completed}
use cluster.Runner.Types.{Result, ok, err}
use cluster.Controller.Env.{Env, ConfigMap, M, pure, ◌>>=◌, read, store}
use cluster.Controller.Stages.{output_config_map_name, truncate_output}

abbrev pub config_map_data_key : Str
config_map_data_key = lit "output"

-- `m[key]`, with the empty text for a missing key.
unfoldable pub lookup_or_empty : Str → StrMap → Str
lookup_or_empty key [] = []
lookup_or_empty key ((k, v) ∷ m) = if str_eq k key then v else lookup_or_empty key m

-- `m[key] = value`
unfoldable pub insert : Str → Str → StrMap → StrMap
insert key value [] = (key, value) ∷ []
insert key value ((k, v) ∷ m) = if str_eq k key then (k, value) ∷ m else (k, v) ∷ insert key value m

pub record PipelineContext : Type 0 where
  pub previous_output : Str
  pub inputs : StrMap
  pub stage_outputs : StrMap

unfoldable pub stage_output : PipelineContext → Str → Str
unfolding lookup_or_empty
stage_output pc stage_name = lookup_or_empty stage_name pc.stage_outputs

abbrev wrap_error {ℓ} : {A : Type ℓ} → Str → Result A → Result A
wrap_error prefix (ok a) = ok a
wrap_error prefix (err e) = err (prefix ++ e)

-- `i < len(Spec.Stages)-1 && Spec.Stages[i+1].Name == currentStage.Name`
unfoldable pub is_just_before : List StageSpec → ℕ → StageSpec → Bool
is_just_before specs i current = elim (get_elem? specs (suc i)) [
  | none ↦ false
  | some next ↦ str_eq next.name current.name
]

-- What the loop of `BuildPipelineContext` does with the output of stage `i`.
unfoldable pub collect :
    List StageSpec → StageSpec → ℕ → StageStatus → Str → PipelineContext → PipelineContext
unfolding is_just_before insert
collect specs current i c output pc = record pc {
  stage_outputs = insert c.name output pc.stage_outputs;
  previous_output = if is_just_before specs i current then output else pc.previous_output;
}

unfoldable pub output_config_map : AgentPipeline → Str → Str → ConfigMap
output_config_map p stage_name output = record {
  meta = record {
    name = output_config_map_name p.meta.name stage_name;
    namespace = p.meta.namespace;
    generation = 0;
    finalizers = [];
    deletion_timestamp = none;
    labels =
        (lit "app.kubernetes.io/managed-by", lit "agentpipeline-operator")
        ∷ (lit "aiops.cluster69.io/pipeline", p.meta.name)
        ∷ (lit "aiops.cluster69.io/stage", stage_name)
        ∷ [];
    owners = [];
  };
  contents = (config_map_data_key, output) ∷ [];
}

-- `if err != nil { return nil, err }`, and `rest` on the value.
abbrev pub or_return : {A B : Type 0} → Result A → (A → M (Result B)) → M (Result B)
or_return (ok a) rest = rest a
or_return (err e) rest = pure (err e)

-- The mutate function of `StoreOutput`.
unfoldable pub replace_output : Str → ConfigMap → ConfigMap
replace_output output stored = record stored { contents = (config_map_data_key, output) ∷ [] }

module _ (env : Env) where
  unfoldable pub run_template : StageSpec → PipelineContext → Result Str
  unfolding stage_output
  run_template s pc = elim (env.parse_template s.prompt) [
    | some e ↦
        err (lit "parsing prompt template for stage " ++ (env.quote s.name ++ (lit ": " ++ e)))
    | none ↦
        wrap_error (lit "executing prompt template for stage " ++ (env.quote s.name ++ lit ": "))
          (env.execute_template s.prompt pc.previous_output pc.inputs (stage_output pc))
  ]

  unfoldable pub render_prompt : StageSpec → PipelineContext → Result Str
  render_prompt s pc =
      if is_empty s.prompt
      then if not (is_empty pc.previous_output)
        then ok pc.previous_output
        else ok (lit "Execute agent " ++ s.agent_ref.name)
      else run_template s pc

  unfoldable pub read_config_map_output : Str → Str → M (Result Str)
  unfolding read
  read_config_map_output namespace name = do
    found ← read env (record { namespace = namespace; name = name })
    pure (elim found [
      | ok cm ↦ ok (lookup_or_empty config_map_data_key cm.contents)
      | err e ↦ err e
    ])

  -- The body of the loop of `BuildPipelineContext`, for stage `i`.
  unfoldable pub context_step :
      AgentPipeline → StageSpec → ℕ → StageStatus → PipelineContext → M (Result PipelineContext)
  unfolding read_config_map_output collect
  context_step p current i c pc =
      if not (is_completed c.phase) || is_empty c.output_ref then pure (ok pc) else do
        found ← read_config_map_output p.meta.namespace c.output_ref
        pure (elim found [
          | ok output ↦ ok (collect p.spec.stages current i c output pc)
          | err e ↦ err (lit "reading output for stage " ++ (env.quote c.name ++ (lit ": " ++ e)))
        ])

  -- The loop, at index `i`; it stops at the first error.
  unfoldable pub context_loop :
      AgentPipeline
      → StageSpec
      → ℕ
      → List StageStatus
      → PipelineContext
      → M (Result PipelineContext)
  context_loop p current i [] pc = pure (ok pc)
  context_loop p current i (c ∷ cs) pc = do
    r ← context_step p current i c pc
    or_return r (λ pc'. context_loop p current (suc i) cs pc')

  unfoldable pub build_pipeline_context : AgentPipeline → StageSpec → M (Result PipelineContext)
  build_pipeline_context p current =
      context_loop p current 0 p.status.stages
        (record { previous_output = []; inputs = current.inputs; stage_outputs = [] })

  -- The name of the ConfigMap and the truncated output.
  unfoldable pub store_output : AgentPipeline → Str → Str → M (Result (Str × Str))
  store_output p stage_name output =
      let name = output_config_map_name p.meta.name stage_name in
      elim (env.set_controller_reference p (output_config_map p stage_name output)) [
        | err e ↦ pure (
            err
              (lit "setting owner reference on ConfigMap " ++ (env.quote name ++ (lit ": " ++ e))))
        | ok cm ↦ do
          e ← store env cm (replace_output output)
          pure (elim e [
            | none ↦ ok (name, truncate_output output)
            | some e ↦
                err (lit "creating/updating ConfigMap " ++ (env.quote name ++ (lit ": " ++ e)))
          ])
      ]
