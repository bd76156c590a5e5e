-- ===== src/Copies/Pipelines.antt =====
-- The copies of a status, of a pipeline and of a list of pipelines.
use cluster.Prelude.{◌≡◌, refl, arith}
use cluster.Api.{StageStatus, AgentPipelineStatus, AgentPipeline}
use cluster.Copies.Memory.{
  Cell, AgentPipelineList, TypeMeta, StoredStageStatus, StoredStatus, StoredPipeline, StoredList,
}
use cluster.Copies.Views.{as_stage_statuses, as_conditions, as_pipelines}
use cluster.Copies.Copy.{
  Machinery, copy_spec, copy_stage_status, copy_status, copy_pipeline, copy_list,
}
use cluster.Copies.Denotation.{
  Same, IsTimeAt, IsStageStatus, IsStatus, IsObjectMeta, IsListMeta, IsPipeline, IsList,
}
use cluster.Copies.Combinators.{
  Copies, Copies-like, Copies-both, both-both, Copies-struct, Copies-copy_new,
}
use cluster.Copies.Pointers.{Copies-unless_nil, Copies-Sequence, Copies-copy_all}
use cluster.Copies.Structs.{Copies-copy_spec}

-- The functions of apimachinery are deep copies of what they copy.
pub record MachineryCopies (api : Machinery) : Type 0 where
  pub times : Copies IsTimeAt api.copy_time
  pub conditions : Copies Same api.copy_condition
  pub object_metas : Copies IsObjectMeta api.copy_object_meta
  pub list_metas : Copies IsListMeta api.copy_list_meta

module _ (api : Machinery) (laws : MachineryCopies api) where
  pub Copies-copy_stage_status : Copies IsStageStatus (copy_stage_status api)
  unfolding copy_stage_status
  Copies-copy_stage_status =
      Copies-like
        (Copies-struct (λ (x : StoredStageStatus). (x.started_at, x.completed_at))
          (λ x y. record x { started_at = y.0; completed_at = y.1 })
          (λ (v : StageStatus). (v.started_at, v.completed_at))
          (λ x v.
            (x.name ≡ v.name)
            × (x.phase ≡ v.phase)
            × (x.retry_count ≡ v.retry_count)
            × (x.output ≡ v.output)
            × (x.output_ref ≡ v.output_ref)
            × (x.error ≡ v.error)
            × (x.task_id ≡ v.task_id))
          (Copies-both (Copies-unless_nil laws.times) (Copies-unless_nil laws.times)) (λ x y v h. h)
          (λ x y. refl))
        (λ u x v r. (r.0.0, r.0.1, r.1.0, r.1.1, r.1.2, r.1.3, r.1.4, r.1.5, r.1.6))
        (λ u x v r. ((r.0, r.1), (r.2, r.3, r.4, r.5, r.6, r.7, r.8))) (λ x h. ground arith)

  pub Copies-copy_status : Copies IsStatus (copy_status api)
  unfolding copy_status
  Copies-copy_status =
      Copies-like
        (Copies-struct
          (λ (x : StoredStatus). (x.started_at, (x.completed_at, (x.stages, x.conditions))))
          (λ x y. record x {
            started_at = y.0;
            completed_at = y.1.0;
            stages = y.1.1.0;
            conditions = y.1.1.1;
          })
          (λ (v : AgentPipelineStatus). (v.started_at, (v.completed_at, (v.stages, v.conditions))))
          (λ x v. (x.phase ≡ v.phase) × (x.current_stage ≡ v.current_stage))
          (Copies-both (Copies-unless_nil laws.times) (
            Copies-both (Copies-unless_nil laws.times) (
              Copies-both
                (Copies-Sequence (
                  Copies-copy_new as_stage_statuses Cell.stage_statuses (λ x. refl)
                    (Copies-copy_all Copies-copy_stage_status)))
                (Copies-Sequence (
                  Copies-copy_new as_conditions Cell.conditions (λ x. refl)
                    (Copies-copy_all laws.conditions))))))
          (λ x y v h. h) (λ x y. refl))
        (λ u x v r. (r.0.0, r.0.1.0, r.0.1.1.0, r.0.1.1.1, r.1.0, r.1.1))
        (λ u x v r. ((r.0, (r.1, (r.2, r.3))), (r.4, r.5))) (λ x h. ground arith)

  pub Copies-copy_pipeline : Copies IsPipeline (copy_pipeline api)
  unfolding copy_pipeline
  Copies-copy_pipeline =
      Copies-like
        (Copies-struct (λ (x : StoredPipeline). (x.meta, (x.spec, x.status)))
          (λ x y. record x { meta = y.0; spec = y.1.0; status = y.1.1 })
          (λ (v : TypeMeta × AgentPipeline). (v.1.meta, (v.1.spec, v.1.status)))
          (λ x v. x.type_meta ≡ v.0)
          (Copies-both laws.object_metas (Copies-both Copies-copy_spec Copies-copy_status))
          (λ x y v h. h) (λ x y. refl))
        (λ u x v r. (r.0.0, r.0.1.0, r.0.1.1, r.1)) (λ u x v r. ((r.0, (r.1, r.2)), r.3))
        (λ x h.
          both-both api.copy_object_meta copy_spec (copy_status api)
            (λ y. record x { meta = y.0; spec = y.1.0; status = y.1.1 }) x.meta x.spec x.status h)

  pub Copies-copy_list : Copies IsList (copy_list api)
  unfolding copy_list
  Copies-copy_list =
      Copies-like
        (Copies-struct (λ (x : StoredList). (x.list_meta, x.items))
          (λ x y. record x { list_meta = y.0; items = y.1 })
          (λ (v : AgentPipelineList). (v.list_meta, v.items)) (λ x v. x.type_meta ≡ v.type_meta)
          (Copies-both laws.list_metas (
            Copies-Sequence (
              Copies-copy_new as_pipelines Cell.pipelines (λ x. refl)
                (Copies-copy_all Copies-copy_pipeline))))
          (λ x y v h. h) (λ x y. refl))
        (λ u x v r. (r.0.0, r.0.1, r.1)) (λ u x v r. ((r.0, r.1), r.2)) (λ x h. ground arith)
