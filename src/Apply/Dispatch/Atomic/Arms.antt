-- ===== src/Apply/Dispatch/Atomic/Arms.antt =====
-- The arms that need no container.
use royak.Apply.Dispatch.Atomic.Base.{
  if-Keeps, either-Keeps, failed-Keeps, done-Keeps, needs-Keeps, KeepsArm,
}
use royak.Prelude.{◌>>=◌, lookup, Text, codes, refl}
use royak.Apply.Base.{Readers}
use royak.Apply.Storage.{store_claim, apply_storage_class, apply_volume, apply_claim}
use royak.Apply.Settings.{apply_config_map, apply_secret, apply_namespace, apply_config}
use royak.Apply.Runs.{apply_autoscaler}
use royak.Apply.Network.{
  as_service, apply_service, apply_ingress_class, apply_ingress, apply_network_policy,
}
use royak.Apply.Limits.{apply_quota, apply_limit_range}
use royak.Apply.Access.{
  apply_role, apply_role_binding, apply_service_account, apply_rbac_role, apply_webhook, head_of,
}
use royak.World.Yaml.{get_key_of, as_text, as_sequence}
use royak.Apply.Extensions.{apply_guard, apply_operator, apply_custom_resource, apply_neuropod}
use royak.Apply.Delivery.{apply_function, apply_repository, apply_pipeline}
use royak.Apply.Dispatch.{apply_unsupported}

pub apply_storage_class-Keeps : KeepsArm apply_storage_class
unfolding apply_storage_class
apply_storage_class-Keeps w r = needs-Keeps (r.spec) _ w _ (λ s. done-Keeps _ w _)

pub apply_volume-Keeps : KeepsArm apply_volume
unfolding apply_volume
apply_volume-Keeps w r = needs-Keeps (r.spec) _ w _ (λ s e h. absurd (cc h))

pub apply_claim-Keeps : KeepsArm apply_claim
unfolding apply_claim store_claim
apply_claim-Keeps w r = needs-Keeps (r.spec) _ w _ (λ s e h. absurd (cc h))

pub apply_config_map-Keeps : KeepsArm apply_config_map
unfolding apply_config_map
apply_config_map-Keeps w r = λ e h. absurd (cc h)

pub apply_secret-Keeps : (read : Readers) → KeepsArm (apply_secret read)
unfolding apply_secret
apply_secret-Keeps read w r = done-Keeps _ w _

pub apply_namespace-Keeps : KeepsArm apply_namespace
unfolding apply_namespace
apply_namespace-Keeps w r = done-Keeps _ w _

pub apply_config-Keeps : (read : Readers) → KeepsArm (apply_config read)
unfolding apply_config
apply_config-Keeps read w r =
    needs-Keeps (r.spec) _ w _
      (λ s. either-Keeps w _ _ _ (λ e. failed-Keeps _ w) (λ c. done-Keeps _ w _))

pub apply_function-Keeps : (read : Readers) → KeepsArm (apply_function read)
unfolding apply_function
apply_function-Keeps read w r =
    needs-Keeps (r.spec) _ w _
      (λ s. either-Keeps w _ _ _ (λ e. failed-Keeps _ w) (λ c. done-Keeps _ w _))

pub apply_repository-Keeps : (read : Readers) → KeepsArm (apply_repository read)
unfolding apply_repository
apply_repository-Keeps read w r =
    needs-Keeps (r.spec) _ w _
      (λ s. either-Keeps w _ _ _ (λ e. failed-Keeps _ w) (λ c. done-Keeps _ w _))

pub apply_pipeline-Keeps : (read : Readers) → KeepsArm (apply_pipeline read)
unfolding apply_pipeline
apply_pipeline-Keeps read w r =
    needs-Keeps (r.spec) _ w _
      (λ s. either-Keeps w _ _ _ (λ e. failed-Keeps _ w) (λ c. done-Keeps _ w _))

pub apply_service-Keeps : (read : Readers) → KeepsArm (apply_service read)
unfolding apply_service
apply_service-Keeps read w r = needs-Keeps (as_service read r) _ w _ (λ s. done-Keeps _ w _)

pub apply_ingress_class-Keeps : KeepsArm apply_ingress_class
unfolding apply_ingress_class
apply_ingress_class-Keeps w r = done-Keeps _ w _

pub apply_ingress-Keeps : KeepsArm apply_ingress
unfolding apply_ingress
apply_ingress-Keeps w r = needs-Keeps (r.spec) _ w _ (λ s. done-Keeps _ w _)

pub apply_network_policy-Keeps :
    (read : Readers) (trim : Text → Text) → KeepsArm (apply_network_policy read trim)
unfolding apply_network_policy
apply_network_policy-Keeps read trim w r = needs-Keeps (r.spec) _ w _ (λ s. done-Keeps _ w _)

pub apply_quota-Keeps : (read : Readers) → KeepsArm (apply_quota read)
unfolding apply_quota
apply_quota-Keeps read w r = needs-Keeps (r.spec) _ w _ (λ s. done-Keeps _ w _)

pub apply_limit_range-Keeps : KeepsArm apply_limit_range
unfolding apply_limit_range
apply_limit_range-Keeps w r = needs-Keeps (r.spec) _ w _ (λ s. done-Keeps _ w _)

pub apply_autoscaler-Keeps : (read : Readers) → KeepsArm (apply_autoscaler read)
unfolding apply_autoscaler
apply_autoscaler-Keeps read w r = needs-Keeps (r.spec) _ w _ (λ s. done-Keeps _ w _)

pub apply_role-Keeps : KeepsArm apply_role
unfolding apply_role
apply_role-Keeps w r = needs-Keeps (r.rules >>= as_sequence) _ w _ (λ s. done-Keeps _ w _)

pub apply_role_binding-Keeps : KeepsArm apply_role_binding
unfolding apply_role_binding
apply_role_binding-Keeps w r =
    needs-Keeps (r.role_ref >>= get_key_of (codes "name") >>= as_text) _ w _ (λ n.
      needs-Keeps (lookup n w.rbac_roles) _ w _
        (λ role. if-Keeps w _ _ _ (failed-Keeps _ w) (done-Keeps _ w _)))

pub apply_service_account-Keeps : KeepsArm apply_service_account
unfolding apply_service_account
apply_service_account-Keeps w r = done-Keeps _ w _

pub apply_rbac_role-Keeps : KeepsArm apply_rbac_role
unfolding apply_rbac_role
apply_rbac_role-Keeps w r = needs-Keeps (r.spec) _ w _ (λ sv.
    needs-Keeps (get_key_of (codes "rules") sv >>= as_sequence) _ w _ (λ rules. done-Keeps _ w _))

pub apply_webhook-Keeps : KeepsArm apply_webhook
unfolding apply_webhook
apply_webhook-Keeps w r = needs-Keeps (r.spec) _ w _ (λ sv.
    needs-Keeps (get_key_of (codes "webhooks") sv >>= as_sequence) _ w _ (λ hooks.
      needs-Keeps (head_of hooks) _ w _ (λ first. needs-Keeps _ _ w _ (λ url. done-Keeps _ w _))))

pub apply_guard-Keeps : KeepsArm apply_guard
unfolding apply_guard
apply_guard-Keeps w r = needs-Keeps (r.spec) _ w _ (λ s. done-Keeps _ w _)

pub apply_operator-Keeps : KeepsArm apply_operator
unfolding apply_operator
apply_operator-Keeps w r =
    needs-Keeps (r.spec) _ w _ (λ sv. needs-Keeps _ _ w _ (λ k. done-Keeps _ w _))

pub apply_custom_resource-Keeps : (read : Readers) → KeepsArm (apply_custom_resource read)
unfolding apply_custom_resource
apply_custom_resource-Keeps read w r = needs-Keeps (r.spec) _ w _ (λ s. done-Keeps _ w _)

pub apply_neuropod-Keeps : (read : Readers) → KeepsArm (apply_neuropod read)
unfolding apply_neuropod
apply_neuropod-Keeps read w r = needs-Keeps (r.spec) _ w _ (λ s e h. refl)

pub apply_unsupported-Keeps : KeepsArm apply_unsupported
unfolding apply_unsupported
apply_unsupported-Keeps w r = failed-Keeps _ w
