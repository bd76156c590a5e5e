-- ===== src/Copies/Independence.antt =====
-- Deep copies stand for the same values and share nothing with what they copy.
use cluster.Prelude.{Option, none, some, ◌≡◌, refl, arith, ◌≤◌, ◌<◌}
use cluster.Api.{AgentPipeline}
use cluster.Copies.Memory.{
  Address, Pointer, Cell, Heap, M, ◌>>=◌, pure, put, TypeMeta, AgentPipelineList,
}
use cluster.Copies.Views.{
  as_agent_reference, as_stage_config, as_retry_policy, as_alertmanager, as_trigger, as_stage_spec,
  as_spec, as_stage_status, as_status, as_pipeline, as_pipeline_list,
}
use cluster.Copies.Copy.{Machinery, copy_agent_reference, copy_stage_config}
use cluster.Copies.DeepCopy.{
  deep_copy_agent_reference, deep_copy_alertmanager, deep_copy_retry_policy, deep_copy_stage_config,
  deep_copy_stage_spec, deep_copy_spec, deep_copy_trigger, deep_copy_stage_status, deep_copy_status,
  deep_copy_pipeline, deep_copy_pipeline_list, deep_copy_pipeline_object,
  deep_copy_pipeline_list_object,
}
use cluster.Copies.Denotation.{
  Denotes, Same, At, Nullable, IsAlertmanager, IsRetryPolicy, IsTrigger, IsStageSpec, IsSpec,
  IsStageStatus, IsStatus, IsPipeline, IsList,
}
use cluster.Copies.Regions.{between, Within-between, Within-put-before, Within-put-behind}
use cluster.Copies.Combinators.{Copies, Copies-Same, Copies-like, Copies-copy_new}
use cluster.Copies.Pointers.{Copies-unless_nil}
use cluster.Copies.Structs.{
  Copies-copy_alertmanager, Copies-copy_retry_policy, Copies-copy_trigger, Copies-copy_stage_spec,
  Copies-copy_spec,
}
use cluster.Copies.Pipelines.{
  MachineryCopies, Copies-copy_stage_status, Copies-copy_status, Copies-copy_pipeline,
  Copies-copy_list,
}

-- Behind a copy of `x` by `f`, the copy and `x` both stand for `v`, also when `c` has been written to
-- the address `q` of what was used before, for the copy, or to the other address `q'`, for `x`.
abbrev pub Apart :
    {G A : Type 0} → Denotes G A → (G → M G) → Heap → G → A → Address → Address → Cell → Type 0
Apart {G} R f h x v q q' c =
    (y : G) × (h' : Heap) × (f x h ≡ some (y, h'))
    × R (between h.next h'.next (put h'.cell q c)) y v
    × R (between 0 h.next (put h'.cell q' c)) x v

-- What `DeepCopyObject` does with the result of `DeepCopy`.
object_of :
    (m : M Pointer) (h : Heap)
    → (do c ← m; elim c [ none ↦ pure none | some q ↦ pure (some q) ]) h ≡ m h
object_of m h = ground arith

Copies-Apart :
    {G A : Type 0} {R : Denotes G A} {f : G → M G}
    → Copies R f
    → (h : Heap) (x : G) (v : A) (q q' : Address) (c : Cell) → R (between 0 h.next h.cell) x v
    → q < h.next
    → h.next ≤ q'
    → Apart R f h x v q q' c
Copies-Apart law h x v q q' c r before behind =
    let (y, h', e, (fresh, ext)) = law.copied h x v r in
    (
      y,
      h',
      e,
      law.widens _ _ y v (Within-put-before h.next h'.next h'.cell q c before) fresh,
      law.widens _ _ x v (Within-put-behind 0 h.next h'.cell q' c behind) (
          law.widens _ _ x v
            (Within-between 0 0 h.next h.next h.cell h'.cell (omega arith) (omega arith) ext.kept)
            r),
    )

-- `DeepCopy` of the types whose values hold no time and no metadata.
deep_copy-Copies :
    Copies (Nullable (At as_agent_reference Same)) deep_copy_agent_reference
    × Copies (Nullable (At as_stage_config Same)) deep_copy_stage_config
    × Copies (Nullable (At as_alertmanager IsAlertmanager)) deep_copy_alertmanager
    × Copies (Nullable (At as_retry_policy IsRetryPolicy)) deep_copy_retry_policy
    × Copies (Nullable (At as_trigger IsTrigger)) deep_copy_trigger
    × Copies (Nullable (At as_stage_spec IsStageSpec)) deep_copy_stage_spec
    × Copies (Nullable (At as_spec IsSpec)) deep_copy_spec
unfolding deep_copy_agent_reference deep_copy_stage_config deep_copy_alertmanager
    deep_copy_retry_policy deep_copy_trigger deep_copy_stage_spec deep_copy_spec
    copy_agent_reference copy_stage_config
deep_copy-Copies = (
  Copies-unless_nil
      (Copies-copy_new as_agent_reference Cell.agent_reference (λ x. refl) Copies-Same),
  Copies-unless_nil (Copies-copy_new as_stage_config Cell.stage_config (λ x. refl) Copies-Same),
  Copies-unless_nil
      (Copies-copy_new as_alertmanager Cell.alertmanager (λ x. refl) Copies-copy_alertmanager),
  Copies-unless_nil
      (Copies-copy_new as_retry_policy Cell.retry_policy (λ x. refl) Copies-copy_retry_policy),
  Copies-unless_nil (Copies-copy_new as_trigger Cell.trigger (λ x. refl) Copies-copy_trigger),
  Copies-unless_nil
      (Copies-copy_new as_stage_spec Cell.stage_spec (λ x. refl) Copies-copy_stage_spec),
  Copies-unless_nil (Copies-copy_new as_spec Cell.spec (λ x. refl) Copies-copy_spec),
)

module _ (api : Machinery) (laws : MachineryCopies api) where
  deep_copy_stage_status-Copies :
      Copies (Nullable (At as_stage_status IsStageStatus)) (deep_copy_stage_status api)
      × Copies (Nullable (At as_status IsStatus)) (deep_copy_status api)
  unfolding deep_copy_stage_status deep_copy_status
  deep_copy_stage_status-Copies = (
    Copies-unless_nil (
        Copies-copy_new as_stage_status Cell.stage_status (λ x. refl)
          (Copies-copy_stage_status api laws)),
    Copies-unless_nil
        (Copies-copy_new as_status Cell.status (λ x. refl) (Copies-copy_status api laws)),
  )

  deep_copy_pipeline_object-Copies :
      Copies (Nullable (At as_pipeline IsPipeline)) (deep_copy_pipeline_object api)
  unfolding deep_copy_pipeline_object deep_copy_pipeline
  deep_copy_pipeline_object-Copies =
      Copies-like
        (Copies-unless_nil
          (Copies-copy_new as_pipeline Cell.pipeline (λ x. refl) (Copies-copy_pipeline api laws)))
        (λ u x v r. r) (λ u x v r. r) (λ x h. object_of (deep_copy_pipeline api x) h)

  deep_copy_pipeline_list_object-Copies :
      Copies (Nullable (At as_pipeline_list IsList)) (deep_copy_pipeline_list_object api)
  unfolding deep_copy_pipeline_list_object deep_copy_pipeline_list
  deep_copy_pipeline_list_object-Copies =
      Copies-like
        (Copies-unless_nil (
          Copies-copy_new as_pipeline_list Cell.pipeline_list (λ x. refl)
            (Copies-copy_list api laws)))
        (λ u x v r. r) (λ u x v r. r) (λ x h. object_of (deep_copy_pipeline_list api x) h)

  -- Where a pointer is nil or stands for a pipeline in used memory, `DeepCopyObject` returns, and what
  -- it returns stands for the same pipeline; a write to an address that was used before does not
  -- change the copy, and a write to any other address does not change the original.
  pub deep_copy_pipeline_object_lem :
      (h : Heap) (x : Pointer) (v : Option (TypeMeta × AgentPipeline)) (q q' : Address) (c : Cell)
      → Nullable (At as_pipeline IsPipeline) (between 0 h.next h.cell) x v
      → q < h.next
      → h.next ≤ q'
      → Apart (Nullable (At as_pipeline IsPipeline)) (deep_copy_pipeline_object api) h x v q q' c
  deep_copy_pipeline_object_lem = Copies-Apart deep_copy_pipeline_object-Copies

  -- The same holds of `DeepCopyObject` for a list of pipelines.
  pub deep_copy_pipeline_list_object_lem :
      (h : Heap) (x : Pointer) (v : Option AgentPipelineList) (q q' : Address) (c : Cell)
      → Nullable (At as_pipeline_list IsList) (between 0 h.next h.cell) x v
      → q < h.next
      → h.next ≤ q'
      → Apart
          (Nullable (At as_pipeline_list IsList))
          (deep_copy_pipeline_list_object api)
          h
          x
          v
          q
          q'
          c
  deep_copy_pipeline_list_object_lem = Copies-Apart deep_copy_pipeline_list_object-Copies
