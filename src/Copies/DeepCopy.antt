-- ===== src/Copies/DeepCopy.antt =====
-- `DeepCopy` of each type, and `DeepCopyObject`, in
-- agentpipeline-operator/api/v1alpha1/zz_generated.deepcopy.go.
use cluster.Copies.Memory.{Pointer, Cell, M, ◌>>=◌, pure}
use cluster.Prelude.{none, some}
use cluster.Copies.Views.{
  as_agent_reference, as_stage_config, as_retry_policy, as_alertmanager, as_trigger, as_stage_spec,
  as_spec, as_stage_status, as_status, as_pipeline, as_pipeline_list,
}
use cluster.Copies.Copy.{
  unless_nil, copy_new, Machinery, copy_agent_reference, copy_alertmanager, copy_retry_policy,
  copy_stage_config, copy_stage_spec, copy_spec, copy_trigger, copy_stage_status, copy_status,
  copy_pipeline, copy_list,
}

unfoldable pub deep_copy_agent_reference : Pointer → M Pointer
unfolding unless_nil copy_new copy_agent_reference
deep_copy_agent_reference x =
    unless_nil x (copy_new as_agent_reference Cell.agent_reference copy_agent_reference)

unfoldable pub deep_copy_alertmanager : Pointer → M Pointer
unfolding unless_nil copy_new copy_alertmanager
deep_copy_alertmanager x =
    unless_nil x (copy_new as_alertmanager Cell.alertmanager copy_alertmanager)

unfoldable pub deep_copy_retry_policy : Pointer → M Pointer
unfolding unless_nil copy_new copy_retry_policy
deep_copy_retry_policy x =
    unless_nil x (copy_new as_retry_policy Cell.retry_policy copy_retry_policy)

unfoldable pub deep_copy_stage_config : Pointer → M Pointer
unfolding unless_nil copy_new copy_stage_config
deep_copy_stage_config x =
    unless_nil x (copy_new as_stage_config Cell.stage_config copy_stage_config)

unfoldable pub deep_copy_stage_spec : Pointer → M Pointer
unfolding unless_nil copy_new copy_stage_spec
deep_copy_stage_spec x = unless_nil x (copy_new as_stage_spec Cell.stage_spec copy_stage_spec)

unfoldable pub deep_copy_spec : Pointer → M Pointer
unfolding unless_nil copy_new copy_spec
deep_copy_spec x = unless_nil x (copy_new as_spec Cell.spec copy_spec)

unfoldable pub deep_copy_trigger : Pointer → M Pointer
unfolding unless_nil copy_new copy_trigger
deep_copy_trigger x = unless_nil x (copy_new as_trigger Cell.trigger copy_trigger)

module _ (api : Machinery) where
  unfoldable pub deep_copy_stage_status : Pointer → M Pointer
  unfolding unless_nil copy_new copy_stage_status
  deep_copy_stage_status x =
      unless_nil x (copy_new as_stage_status Cell.stage_status (copy_stage_status api))

  unfoldable pub deep_copy_status : Pointer → M Pointer
  unfolding unless_nil copy_new copy_status
  deep_copy_status x = unless_nil x (copy_new as_status Cell.status (copy_status api))

  unfoldable pub deep_copy_pipeline : Pointer → M Pointer
  unfolding unless_nil copy_new copy_pipeline
  deep_copy_pipeline x = unless_nil x (copy_new as_pipeline Cell.pipeline (copy_pipeline api))

  unfoldable pub deep_copy_pipeline_list : Pointer → M Pointer
  unfolding unless_nil copy_new copy_list
  deep_copy_pipeline_list x =
      unless_nil x (copy_new as_pipeline_list Cell.pipeline_list (copy_list api))

  -- `if c := in.DeepCopy(); c != nil { return c }`, and nil.
  unfoldable pub deep_copy_pipeline_object : Pointer → M Pointer
  unfolding deep_copy_pipeline
  deep_copy_pipeline_object x = do
    c ← deep_copy_pipeline x
    elim c [ none ↦ pure none | some q ↦ pure (some q) ]

  unfoldable pub deep_copy_pipeline_list_object : Pointer → M Pointer
  unfolding deep_copy_pipeline_list
  deep_copy_pipeline_list_object x = do
    c ← deep_copy_pipeline_list x
    elim c [ none ↦ pure none | some q ↦ pure (some q) ]
