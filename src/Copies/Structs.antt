-- ===== src/Copies/Structs.antt =====
-- The copies of the structs of a pipeline's spec.
use cluster.Prelude.{◌≡◌, refl, arith}
use cluster.Api.{AlertmanagerConfig, TriggerSpec, RetryPolicy, StageSpec, AgentPipelineSpec}
use cluster.Copies.Memory.{
  Cell, StoredAlertmanager, StoredTrigger, StoredRetryPolicy, StoredStageSpec, StoredSpec,
}
use cluster.Copies.Views.{as_alertmanager, as_retry_policy, as_stage_config, as_stage_specs}
use cluster.Copies.Copy.{
  copy_alertmanager, copy_retry_policy, copy_trigger, copy_stage_spec, copy_spec,
}
use cluster.Copies.Denotation.{IsAlertmanager, IsRetryPolicy, IsTrigger, IsStageSpec, IsSpec}
use cluster.Copies.Combinators.{
  Copies, Copies-Same, Copies-like, Copies-both, Copies-struct, Copies-copy_new,
}
use cluster.Copies.Pointers.{Copies-unless_nil, Copies-Sequence, Copies-copy_all}
use cluster.Copies.Maps.{Copies-copy_map, Copies-copy_duration, Copies-copy_strings}

pub Copies-copy_alertmanager : Copies IsAlertmanager copy_alertmanager
unfolding copy_alertmanager
Copies-copy_alertmanager =
    Copies-struct (λ (x : StoredAlertmanager). x.match_labels)
      (λ x y. record x { match_labels = y }) (λ (v : AlertmanagerConfig). v.match_labels)
      (λ x v. x.webhook_port ≡ v.webhook_port) Copies-copy_map (λ x y v h. h) (λ x y. refl)

pub Copies-copy_retry_policy : Copies IsRetryPolicy copy_retry_policy
unfolding copy_retry_policy
Copies-copy_retry_policy =
    Copies-struct (λ (x : StoredRetryPolicy). x.backoff) (λ x y. record x { backoff = y })
      (λ (v : RetryPolicy). v.backoff) (λ x v. x.max_retries ≡ v.max_retries) Copies-copy_duration
      (λ x y v h. h) (λ x y. refl)

pub Copies-copy_trigger : Copies IsTrigger copy_trigger
unfolding copy_trigger
Copies-copy_trigger =
    Copies-struct (λ (x : StoredTrigger). x.alertmanager) (λ x y. record x { alertmanager = y })
      (λ (v : TriggerSpec). v.alertmanager) (λ x v. x.type_of ≡ v.type_of)
      (Copies-unless_nil
        (Copies-copy_new as_alertmanager Cell.alertmanager (λ x. refl) Copies-copy_alertmanager))
      (λ x y v h. h) (λ x y. refl)

pub Copies-copy_stage_spec : Copies IsStageSpec copy_stage_spec
unfolding copy_stage_spec
Copies-copy_stage_spec =
    Copies-like
      (Copies-struct
        (λ (x : StoredStageSpec).
          (x.timeout, (x.depends_on, (x.inputs, (x.config, x.retry_policy)))))
        (λ x y. record x {
          timeout = y.0;
          depends_on = y.1.0;
          inputs = y.1.1.0;
          config = y.1.1.1.0;
          retry_policy = y.1.1.1.1;
        })
        (λ (v : StageSpec). (v.timeout, (v.depends_on, (v.inputs, (v.config, v.retry_policy)))))
        (λ x v. (x.name ≡ v.name) × (x.agent_ref ≡ v.agent_ref) × (x.prompt ≡ v.prompt))
        (Copies-both Copies-copy_duration (
          Copies-both Copies-copy_strings (
            Copies-both Copies-copy_map (
              Copies-both
                (Copies-unless_nil
                  (Copies-copy_new as_stage_config Cell.stage_config (λ x. refl) Copies-Same))
                (Copies-unless_nil (
                  Copies-copy_new as_retry_policy Cell.retry_policy (λ x. refl)
                    Copies-copy_retry_policy))))))
        (λ x y v h. h) (λ x y. refl))
      (λ u x v r. (r.0.0, r.0.1.0, r.0.1.1.0, r.0.1.1.1.0, r.0.1.1.1.1, r.1.0, r.1.1, r.1.2))
      (λ u x v r. ((r.0, (r.1, (r.2, (r.3, r.4)))), (r.5, r.6, r.7))) (λ x h. ground arith)

pub Copies-copy_spec : Copies IsSpec copy_spec
unfolding copy_spec
Copies-copy_spec =
    Copies-like
      (Copies-struct (λ (x : StoredSpec). (x.trigger, (x.stages, x.retry_policy)))
        (λ x y. record x { trigger = y.0; stages = y.1.0; retry_policy = y.1.1 })
        (λ (v : AgentPipelineSpec). (v.trigger, (v.stages, v.retry_policy))) (λ x v. Unit {0})
        (Copies-both Copies-copy_trigger (
          Copies-both
            (Copies-Sequence (
              Copies-copy_new as_stage_specs Cell.stage_specs (λ x. refl)
                (Copies-copy_all Copies-copy_stage_spec)))
            (Copies-unless_nil (
              Copies-copy_new as_retry_policy Cell.retry_policy (λ x. refl)
                Copies-copy_retry_policy))))
        (λ x y v h. h) (λ x y. refl))
      (λ u x v r. (r.0.0, r.0.1.0, r.0.1.1)) (λ u x v r. ((r.0, (r.1, r.2)), tt))
      (λ x h. ground arith)
