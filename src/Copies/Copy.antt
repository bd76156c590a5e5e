-- ===== src/Copies/Copy.antt =====
-- The functions of agentpipeline-operator/api/v1alpha1/zz_generated.deepcopy.go. `DeepCopyInto` is a
-- function from what `in` points to, to what it leaves in `out`; the address of a new object is
-- taken once its content is there, since nobody sees the object before.
use cluster.Prelude.{Option, none, some, List, [], ◌∷◌}
use cluster.Api.{StrMap, AgentReference, StageConfig, Condition}
use cluster.Controller.Handler.{insert}
use cluster.Copies.Memory.{
  Address, Pointer, Cell, M, ◌>>=◌, pure, load, new, StoredAlertmanager, StoredTrigger,
  StoredRetryPolicy, StoredStageSpec, StoredSpec, StoredStageStatus, StoredStatus, StoredObjectMeta,
  StoredListMeta, StoredPipeline, StoredList,
}
use cluster.Copies.Views.{
  as_duration, as_strings, as_str_map, as_stage_config, as_retry_policy, as_alertmanager,
  as_stage_specs, as_stage_statuses, as_conditions, as_pipelines,
}

-- `if in.X != nil { … }`
unfoldable pub unless_nil : Pointer → (Address → M Address) → M Pointer
unless_nil none f = pure none
unless_nil (some q) f = do r ← f q; pure (some r)

-- `*out = new(T)`, and the content by `into`.
unfoldable pub copy_new :
    {G : Type 0} → (Cell → Option G) → (G → Cell) → (G → M G) → Address → M Address
unfolding load new
copy_new view cell into q = do x ← load view q; y ← into x; new (cell y)

-- `for i := range *in { (*in)[i].DeepCopyInto(&(*out)[i]) }`
unfoldable pub copy_all : {G : Type 0} → (G → M G) → List G → M (List G)
copy_all into [] = pure []
copy_all into (x ∷ xs) = do y ← into x; ys ← copy_all into xs; pure (y ∷ ys)

-- `for key, val := range *in { (*out)[key] = val }`
unfoldable pub copy_entries : StrMap → StrMap → StrMap
unfolding insert
copy_entries [] out = out
copy_entries ((key, val) ∷ m) out = copy_entries m (insert key val out)

unfoldable pub copy_map : Pointer → M Pointer
unfolding unless_nil copy_new copy_entries
copy_map x = unless_nil x (copy_new as_str_map Cell.str_map (λ m. pure (copy_entries m [])))

-- metav1.Duration
unfoldable pub copy_duration : Pointer → M Pointer
unfolding unless_nil copy_new
copy_duration x = unless_nil x (copy_new as_duration Cell.duration pure)

unfoldable pub copy_strings : Pointer → M Pointer
unfolding unless_nil copy_new
copy_strings x = unless_nil x (copy_new as_strings Cell.strings pure)

-- The functions of apimachinery that the generated code calls: `DeepCopy` of metav1.Time,
-- `DeepCopyInto` of metav1.Condition, metav1.ObjectMeta and metav1.ListMeta.
pub record Machinery : Type 0 where
  pub copy_time : Address → M Address
  pub copy_condition : Condition → M Condition
  pub copy_object_meta : StoredObjectMeta → M StoredObjectMeta
  pub copy_list_meta : StoredListMeta → M StoredListMeta

-- The types without a time or metadata.
unfoldable pub copy_agent_reference : AgentReference → M AgentReference
copy_agent_reference x = pure x

unfoldable pub copy_stage_config : StageConfig → M StageConfig
copy_stage_config x = pure x

unfoldable pub copy_alertmanager : StoredAlertmanager → M StoredAlertmanager
unfolding copy_map
copy_alertmanager x = do
  match_labels ← copy_map x.match_labels
  pure (record x { match_labels = match_labels })

unfoldable pub copy_retry_policy : StoredRetryPolicy → M StoredRetryPolicy
unfolding copy_duration
copy_retry_policy x = do backoff ← copy_duration x.backoff; pure (record x { backoff = backoff })

unfoldable pub copy_trigger : StoredTrigger → M StoredTrigger
unfolding copy_alertmanager unless_nil copy_new
copy_trigger x = do
  am ← unless_nil x.alertmanager (copy_new as_alertmanager Cell.alertmanager copy_alertmanager)
  pure (record x { alertmanager = am })

unfoldable pub copy_stage_spec : StoredStageSpec → M StoredStageSpec
unfolding copy_duration copy_strings copy_map copy_stage_config copy_retry_policy unless_nil
    copy_new
copy_stage_spec x = do
  timeout ← copy_duration x.timeout
  depends_on ← copy_strings x.depends_on
  inputs ← copy_map x.inputs
  config ← unless_nil x.config (copy_new as_stage_config Cell.stage_config pure)
  policy ← unless_nil x.retry_policy (copy_new as_retry_policy Cell.retry_policy copy_retry_policy)
  pure (record x {
    timeout = timeout;
    depends_on = depends_on;
    inputs = inputs;
    config = config;
    retry_policy = policy;
  })

unfoldable pub copy_spec : StoredSpec → M StoredSpec
unfolding copy_trigger copy_stage_spec copy_retry_policy unless_nil copy_new copy_all
copy_spec x = do
  tr ← copy_trigger x.trigger
  stages ← unless_nil x.stages (copy_new as_stage_specs Cell.stage_specs (copy_all copy_stage_spec))
  policy ← unless_nil x.retry_policy (copy_new as_retry_policy Cell.retry_policy copy_retry_policy)
  pure (record x { trigger = tr; stages = stages; retry_policy = policy })

module _ (api : Machinery) where
  unfoldable pub copy_stage_status : StoredStageStatus → M StoredStageStatus
  unfolding unless_nil
  copy_stage_status x = do
    started_at ← unless_nil x.started_at api.copy_time
    completed_at ← unless_nil x.completed_at api.copy_time
    pure (record x { started_at = started_at; completed_at = completed_at })

  unfoldable pub copy_status : StoredStatus → M StoredStatus
  unfolding unless_nil copy_new copy_all copy_stage_status
  copy_status x = do
    started_at ← unless_nil x.started_at api.copy_time
    completed_at ← unless_nil x.completed_at api.copy_time
    stages ←
        unless_nil x.stages
          (copy_new as_stage_statuses Cell.stage_statuses (copy_all copy_stage_status))
    conds ←
        unless_nil x.conditions
          (copy_new as_conditions Cell.conditions (copy_all api.copy_condition))
    pure (record x {
      started_at = started_at;
      completed_at = completed_at;
      stages = stages;
      conditions = conds;
    })

  unfoldable pub copy_pipeline : StoredPipeline → M StoredPipeline
  unfolding copy_spec copy_status
  copy_pipeline x = do
    meta ← api.copy_object_meta x.meta
    sp ← copy_spec x.spec
    st ← copy_status x.status
    pure (record x { meta = meta; spec = sp; status = st })

  unfoldable pub copy_list : StoredList → M StoredList
  unfolding unless_nil copy_new copy_all copy_pipeline
  copy_list x = do
    list_meta ← api.copy_list_meta x.list_meta
    items ← unless_nil x.items (copy_new as_pipelines Cell.pipelines (copy_all copy_pipeline))
    pure (record x { list_meta = list_meta; items = items })
