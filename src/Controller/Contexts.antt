-- ===== src/Controller/Contexts.antt =====
-- The context of a prompt against the outputs of the stages.
use cluster.Prelude.{
  arith, Str, str_eq, str_eq_iff, is_empty, ℕ, zero, suc, Bool, true, false, not, ◌&&◌, List, [],
  ◌∷◌, ◌≡◌, refl, ap, ◌∙◌, inl, inr, Bool-cases, if◌then◌else◌,
}
use cluster.Api.{StrMap, StageSpec, StageStatus, AgentPipeline, is_completed}
use cluster.Runner.Types.{ok}
use cluster.Controller.Keeping.{KeepsConfigMaps, context_step-get_config_map}
use cluster.Controller.Env.{ObjectKey, Env, ConfigMap, Trace, read}
use cluster.Controller.Handler.{
  PipelineContext, config_map_data_key, lookup_or_empty, insert, stage_output, is_just_before,
  collect, or_return, read_config_map_output, context_step, context_loop, build_pipeline_context,
}

-- `c` has an output that can be read.
abbrev pub has_output : StageStatus → Bool
has_output c = is_completed c.phase && not (is_empty c.output_ref)

-- The stage behind index `i` has that name.
abbrev pub is_followed_by : List StageSpec → ℕ → Str → Bool
is_followed_by (x ∷ y ∷ r) zero name = str_eq y.name name
is_followed_by (x ∷ r) (suc i) name = is_followed_by r i name
is_followed_by _ _ name = false

pub is_just_before-is_followed_by :
    (specs : List StageSpec) (i : ℕ) (s : StageSpec)
    → is_just_before specs i s ≡ is_followed_by specs i s.name
unfolding is_just_before
is_just_before-is_followed_by [] i s = refl
is_just_before-is_followed_by (x ∷ []) zero s = refl
is_just_before-is_followed_by (x ∷ y ∷ r) zero s = refl
is_just_before-is_followed_by (x ∷ []) (suc i) s = is_just_before-is_followed_by [] i s
is_just_before-is_followed_by (x ∷ y ∷ r) (suc i) s = is_just_before-is_followed_by (y ∷ r) i s

module _ (outputs : Str → Str) where
  -- The output of the last stage of that name that has one, and `before` if none has.
  abbrev pub last_output : Str → List StageStatus → Str → Str
  last_output name [] before = before
  last_output name (c ∷ cs) before =
      last_output name cs
        (if has_output c && str_eq c.name name then outputs c.output_ref else before)

  -- The output of the last stage, from index `i` on, that has one and stands just before `s` in the
  -- spec.
  abbrev pub output_before : List StageSpec → StageSpec → ℕ → List StageStatus → Str → Str
  output_before specs s i [] before = before
  output_before specs s i (c ∷ cs) before =
      output_before specs s (suc i) cs
        (if has_output c && is_followed_by specs i s.name then outputs c.output_ref else before)

str_eq_apart : (x j k : Str) → str_eq x j ≡ true → str_eq x k ≡ false → str_eq k j ≡ false
str_eq_apart x j k h other = elim (Bool-cases (str_eq k j)) [
  | inr f ↦ f
  | inl t ↦ cc ((str_eq_iff k j).0 t)
]

lookup-insert :
    (k j v : Str) (m : StrMap)
    → lookup_or_empty j (insert k v m) ≡ (if str_eq k j then v else lookup_or_empty j m)
unfolding lookup_or_empty insert
lookup-insert k j v [] = refl
lookup-insert k j v ((x, w) ∷ m) = elim (Bool-cases (str_eq x k)) [
  | inl same ↦
      let e : x ≡ k = (str_eq_iff x k).0 same in
      elim (Bool-cases (str_eq k j)) [
        | inl h ↦ rw (same, insert, lookup_or_empty) (rw (h, ap (λ y. str_eq y j) e ∙ h) refl)
        | inr h ↦ rw (same, insert, lookup_or_empty) (rw (h, ap (λ y. str_eq y j) e ∙ h) refl)
      ]
  | inr other ↦ elim (Bool-cases (str_eq x j)) [
    | inl h ↦
        let apart : str_eq k j ≡ false = str_eq_apart x j k h other in
        rw (other, insert, lookup_or_empty) (rw (h, apart) refl)
    | inr h ↦ rw (other, insert, lookup_or_empty) (rw h (lookup-insert k j v m))
  ]
]

-- The outputs in the ConfigMaps `maps`, by name.
abbrev pub held : (Str → ConfigMap) → Str → Str
held maps ref = lookup_or_empty config_map_data_key (maps ref).contents

-- At `t` the ConfigMaps that the completed stages `cs` refer to can be read, and are `maps`, by name.
pub data Readable (env : Env) (namespace : Str) (maps : Str → ConfigMap) (t : Trace)
    : List StageStatus → Type 0 where
  all_read : Readable env namespace maps t []
  without :
      {c : StageStatus} {cs : List StageStatus}
      → has_output c ≡ false
      → Readable env namespace maps t cs
      → Readable env namespace maps t (c ∷ cs)
  holding :
      {c : StageStatus} {cs : List StageStatus}
      → env.get_config_map t (record { namespace = namespace; name = c.output_ref })
        ≡ ok (maps c.output_ref)
      → Readable env namespace maps t cs
      → Readable env namespace maps t (c ∷ cs)

Readable-later :
    (env : Env) (namespace : Str) (maps : Str → ConfigMap) (t t' : Trace) (cs : List StageStatus)
    → ((k : ObjectKey) → env.get_config_map t' k ≡ env.get_config_map t k)
    → Readable env namespace maps t cs
    → Readable env namespace maps t' cs
Readable-later env namespace maps t t' _ same all_read = all_read
Readable-later env namespace maps t t' (c ∷ cs) same (without h rest) =
    without h (Readable-later env namespace maps t t' cs same rest)
Readable-later env namespace maps t t' (c ∷ cs) same (holding h rest) =
    holding (same _ ∙ h) (Readable-later env namespace maps t t' cs same rest)

module _ (env : Env) (keeps : KeepsConfigMaps env) (p : AgentPipeline) (s : StageSpec)
    (maps : Str → ConfigMap) where
  -- What the loop does with stage `i`.
  abbrev next : ℕ → StageStatus → PipelineContext → PipelineContext
  next i c pc = if has_output c then collect p.spec.stages s i c (held maps c.output_ref) pc else pc

  context_step_lem :
      (i : ℕ) (c : StageStatus) (pc : PipelineContext) (t : Trace) (cs : List StageStatus)
      → Readable env p.meta.namespace maps t (c ∷ cs)
      → ((context_step env p s i c pc t).0 ≡ ok (next i c pc))
        × Readable env p.meta.namespace maps t cs
  unfolding context_step read_config_map_output read
  context_step_lem i c pc t cs (without none rest) = (
    elim (Bool-cases (is_completed c.phase)) [
      | inr h ↦ rw (h, context_step) refl
      | inl h ↦ elim (Bool-cases (is_empty c.output_ref)) [
        | inl e ↦ rw (h, e, context_step) refl
        | inr e ↦ absurd (ground arith)
      ]
    ],
    rest,
  )
  context_step_lem i c pc t cs (holding found rest) = (
    elim (Bool-cases (is_completed c.phase)) [
      | inr h ↦ rw (h, context_step) refl
      | inl h ↦ elim (Bool-cases (is_empty c.output_ref)) [
        | inl e ↦ rw (h, e, context_step) refl
        | inr e ↦ rw (h, e, context_step, found) refl
      ]
    ],
    rest,
  )

  abbrev all_next : ℕ → List StageStatus → PipelineContext → PipelineContext
  all_next i [] pc = pc
  all_next i (c ∷ cs) pc = all_next (suc i) cs (next i c pc)

  context_loop_lem :
      (i : ℕ) (cs : List StageStatus) (pc : PipelineContext) (t : Trace)
      → Readable env p.meta.namespace maps t cs
      → (context_loop env p s i cs pc t).0 ≡ ok (all_next i cs pc)
  unfolding context_loop
  context_loop_lem i [] pc t readable = refl
  context_loop_lem i (c ∷ cs) pc t readable =
      let r = context_step env p s i c pc t in
      let step = context_step_lem i c pc t cs readable in
      ap (λ x. (or_return x (λ pc'. context_loop env p s (suc i) cs pc') r.1).0) step.0
      ∙ context_loop_lem (suc i) cs (next i c pc) r.1 (
          Readable-later env p.meta.namespace maps t r.1 cs
            (λ k. context_step-get_config_map env keeps k p s i c pc t) step.1)

  all_next-inputs :
      (i : ℕ) (cs : List StageStatus) (pc : PipelineContext) → (all_next i cs pc).inputs ≡ pc.inputs
  all_next-inputs i [] pc = refl
  all_next-inputs i (c ∷ cs) pc =
      all_next-inputs (suc i) cs (next i c pc) ∙ elim (Bool-cases (has_output c)) [
        | inl h ↦ rw h (unfold collect in refl)
        | inr h ↦ rw h refl
      ]

  all_next-previous_output :
      (i : ℕ) (cs : List StageStatus) (pc : PipelineContext)
      → (all_next i cs pc).previous_output
        ≡ output_before (held maps) p.spec.stages s i cs pc.previous_output
  unfolding collect
  all_next-previous_output i [] pc = refl
  all_next-previous_output i (c ∷ cs) pc =
      all_next-previous_output (suc i) cs (next i c pc)
      ∙ ap (output_before (held maps) p.spec.stages s (suc i) cs)
          (elim (Bool-cases (has_output c)) [
            | inl h ↦
                rw (h, collect)
                  (ap (λ b. if b then held maps c.output_ref else pc.previous_output)
                    (is_just_before-is_followed_by p.spec.stages i s))
            | inr h ↦ rw h refl
          ])

  all_next-stage_output :
      (i : ℕ) (cs : List StageStatus) (pc : PipelineContext) (name : Str)
      → stage_output (all_next i cs pc) name
        ≡ last_output (held maps) name cs (stage_output pc name)
  unfolding collect stage_output
  all_next-stage_output i [] pc name = refl
  all_next-stage_output i (c ∷ cs) pc name =
      all_next-stage_output (suc i) cs (next i c pc) name
      ∙ ap (last_output (held maps) name cs) (elim (Bool-cases (has_output c)) [
        | inl h ↦
            rw (h, collect, stage_output)
              (lookup-insert c.name name (held maps c.output_ref) pc.stage_outputs)
        | inr h ↦ rw h refl
      ])

  -- Where the outputs of the completed stages can be read, `BuildPipelineContext` returns a context with the inputs of the stage, in which `StageOutput` of a name is the stored output of
  -- the last stage of that name that is Completed with an output, empty if there is none, and
  -- `PreviousOutput` that of the last such stage that stands just before one of the current stage's
  -- name in the spec.
  pub build_pipeline_context_lem :
      (t : Trace)
      → Readable env p.meta.namespace maps t p.status.stages
      → (pc : PipelineContext) × ((build_pipeline_context env p s t).0 ≡ ok pc)
        × (pc.inputs ≡ s.inputs)
        × (pc.previous_output ≡ output_before (held maps) p.spec.stages s 0 p.status.stages [])
        × ((name : Str) → stage_output pc name ≡ last_output (held maps) name p.status.stages [])
  unfolding build_pipeline_context stage_output lookup_or_empty
  build_pipeline_context_lem t readable =
      let pc : PipelineContext = record {
        previous_output = [];
        inputs = s.inputs;
        stage_outputs = [];
      } in
      (
        all_next 0 p.status.stages pc,
        context_loop_lem 0 p.status.stages pc t readable,
        all_next-inputs 0 p.status.stages pc,
        all_next-previous_output 0 p.status.stages pc,
        λ name. all_next-stage_output 0 p.status.stages pc name,
      )
