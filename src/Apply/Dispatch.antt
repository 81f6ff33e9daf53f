-- ===== src/Apply/Dispatch.antt =====
-- src/reconcile.rs, `DesiredWorld::apply`: the match on the kind of the manifest.
pub mod Atomic
pub mod Settled
use royak.Prelude.{if◌then◌else◌, Text, codes, text_eq, Bool, ◌||◌, Option, some, ◌++◌}
use royak.Apply.Base.{Arm, Readers, Applied, failed}
use royak.Apply.Storage.{apply_storage_class, apply_volume, apply_claim}
use royak.Apply.Settings.{apply_config_map, apply_secret, apply_namespace, apply_config}
use royak.Apply.Workloads.{apply_deployment}
use royak.Apply.Runs.{PanickingArm, apply_daemon_set, apply_job, apply_cron_job, apply_autoscaler}
use royak.Apply.Network.{apply_service, apply_ingress_class, apply_ingress, apply_network_policy}
use royak.Apply.Limits.{apply_quota, apply_limit_range}
use royak.Apply.Access.{
  apply_role, apply_role_binding, apply_service_account, apply_rbac_role, apply_webhook,
}
use royak.Apply.Extensions.{apply_guard, apply_operator, apply_custom_resource, apply_neuropod}
use royak.Apply.Delivery.{apply_function, apply_repository, apply_pipeline}
use royak.World.Manifest.{Resource}
use royak.World.State.{DesiredWorld}

abbrev pub sure : Arm → PanickingArm
sure arm w r = some (arm w r)

unfoldable pub apply_unsupported : Arm
unfolding failed
apply_unsupported w r = failed (codes "Unsupported resource kind: " ++ r.kind) w

module _ (read : Readers) (trim : Text → Text) where
  unfoldable pub arm_of : Text → PanickingArm
  arm_of kind =
      let is : Text → Bool = text_eq kind in
      if is (codes "Deployment")
        || is (codes "ReplicaSet")
        || is (codes "Pod")
        || is (codes "StatefulSet")
      then sure (apply_deployment read)
      else if is (codes "ConfigMap")
      then sure apply_config_map
      else if is (codes "Secret")
      then sure (apply_secret read)
      else if is (codes "Service")
      then sure (apply_service read)
      else if is (codes "Namespace")
      then sure apply_namespace
      else if is (codes "StorageClass")
      then sure apply_storage_class
      else if is (codes "PersistentVolume")
      then sure apply_volume
      else if is (codes "PersistentVolumeClaim")
      then sure apply_claim
      else if is (codes "DaemonSet")
      then apply_daemon_set read
      else if is (codes "Job")
      then apply_job read
      else if is (codes "CronJob")
      then apply_cron_job read
      else if is (codes "IngressClass")
      then sure apply_ingress_class
      else if is (codes "Ingress")
      then sure apply_ingress
      else if is (codes "NetworkPolicy")
      then sure (apply_network_policy read trim)
      else if is (codes "ResourceQuota")
      then sure (apply_quota read)
      else if is (codes "HorizontalPodAutoscaler") || is (codes "HPA")
      then sure (apply_autoscaler read)
      else if is (codes "Config")
      then sure (apply_config read)
      else if is (codes "Function")
      then sure (apply_function read)
      else if is (codes "Repository")
      then sure (apply_repository read)
      else if is (codes "Pipeline")
      then sure (apply_pipeline read)
      else if is (codes "ValidatingWebhookConfiguration")
      then sure apply_webhook
      else if is (codes "Role") || is (codes "ClusterRole")
      then sure apply_role
      else if is (codes "RoleBinding") || is (codes "ClusterRoleBinding")
      then sure apply_role_binding
      else if is (codes "ServiceAccount")
      then sure apply_service_account
      else if is (codes "LimitRange")
      then sure apply_limit_range
      else if is (codes "RbacRole")
      then sure apply_rbac_role
      else if is (codes "Guard")
      then sure apply_guard
      else if is (codes "Operator")
      then sure apply_operator
      else if is (codes "CustomResource")
      then sure (apply_custom_resource read)
      else if is (codes "NeuroPod")
      then sure (apply_neuropod read)
      else sure apply_unsupported

  -- `none` is a panic.
  unfoldable pub apply : DesiredWorld → Resource → Option Applied
  unfolding arm_of
  apply w r = arm_of r.kind w r
