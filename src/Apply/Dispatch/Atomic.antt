-- ===== src/Apply/Dispatch/Atomic.antt =====
-- An error leaves the world as it was.
use royak.Apply.Dispatch.Atomic.Arms.{
  apply_unsupported-Keeps, apply_neuropod-Keeps, apply_custom_resource-Keeps, apply_operator-Keeps,
  apply_guard-Keeps, apply_rbac_role-Keeps, apply_limit_range-Keeps, apply_service_account-Keeps,
  apply_role_binding-Keeps, apply_role-Keeps, apply_webhook-Keeps, apply_pipeline-Keeps,
  apply_repository-Keeps, apply_function-Keeps, apply_config-Keeps, apply_autoscaler-Keeps,
  apply_quota-Keeps, apply_network_policy-Keeps, apply_ingress-Keeps, apply_ingress_class-Keeps,
  apply_claim-Keeps, apply_volume-Keeps, apply_storage_class-Keeps, apply_namespace-Keeps,
  apply_service-Keeps, apply_secret-Keeps, apply_config_map-Keeps,
}
use royak.Apply.Dispatch.Atomic.Workloads.{
  apply_cron_job-Atomic, apply_job-Atomic, apply_daemon_set-Atomic, apply_deployment-Keeps,
}
use royak.Apply.Dispatch.Atomic.Base.{sure-Atomic, if-Atomic, Atomic}
mod Base
mod Arms
mod Workloads
use royak.Prelude.{if◌then◌else◌, Text, codes, text_eq, ◌≡◌, Bool, ◌||◌, some}
use royak.Apply.Base.{Readers, Outcome, Applied}
use royak.Apply.Dispatch.{arm_of, apply}
use royak.World.Manifest.{Resource}
use royak.World.State.{DesiredWorld}

arm_of-Atomic : (read : Readers) (trim : Text → Text) (kind : Text) → Atomic (arm_of read trim kind)
unfolding arm_of
arm_of-Atomic read trim kind =
    let is : Text → Bool = text_eq kind in
    if-Atomic
      (is (codes "Deployment")
        || is (codes "ReplicaSet")
        || is (codes "Pod")
        || is (codes "StatefulSet"))
      (sure-Atomic _ (apply_deployment-Keeps read))
      (if-Atomic (is (codes "ConfigMap")) (sure-Atomic _ (apply_config_map-Keeps)) (
        if-Atomic (is (codes "Secret")) (sure-Atomic _ (apply_secret-Keeps read)) (
          if-Atomic (is (codes "Service")) (sure-Atomic _ (apply_service-Keeps read)) (
            if-Atomic (is (codes "Namespace")) (sure-Atomic _ (apply_namespace-Keeps)) (
              if-Atomic (is (codes "StorageClass")) (sure-Atomic _ (apply_storage_class-Keeps)) (
                if-Atomic (is (codes "PersistentVolume")) (sure-Atomic _ (apply_volume-Keeps)) (
                  if-Atomic (is (codes "PersistentVolumeClaim")) (sure-Atomic _ (apply_claim-Keeps))
                    (if-Atomic (is (codes "DaemonSet")) (apply_daemon_set-Atomic read) (
                      if-Atomic (is (codes "Job")) (apply_job-Atomic read) (
                        if-Atomic (is (codes "CronJob")) (apply_cron_job-Atomic read) (
                          if-Atomic (is (codes "IngressClass"))
                            (sure-Atomic _ (apply_ingress_class-Keeps))
                            (if-Atomic (is (codes "Ingress")) (sure-Atomic _ (apply_ingress-Keeps))
                              (if-Atomic (is (codes "NetworkPolicy"))
                                (sure-Atomic _ (apply_network_policy-Keeps read trim))
                                (if-Atomic (is (codes "ResourceQuota"))
                                  (sure-Atomic _ (apply_quota-Keeps read))
                                  (if-Atomic
                                    (is (codes "HorizontalPodAutoscaler") || is (codes "HPA"))
                                    (sure-Atomic _ (apply_autoscaler-Keeps read))
                                    (if-Atomic (is (codes "Config"))
                                      (sure-Atomic _ (apply_config-Keeps read))
                                      (if-Atomic (is (codes "Function"))
                                        (sure-Atomic _ (apply_function-Keeps read))
                                        (if-Atomic (is (codes "Repository"))
                                          (sure-Atomic _ (apply_repository-Keeps read))
                                          (if-Atomic (is (codes "Pipeline"))
                                            (sure-Atomic _ (apply_pipeline-Keeps read))
                                            (if-Atomic (is (codes "ValidatingWebhookConfiguration"))
                                              (sure-Atomic _ (apply_webhook-Keeps))
                                              (if-Atomic
                                                (is (codes "Role") || is (codes "ClusterRole"))
                                                (sure-Atomic _ (apply_role-Keeps))
                                                (if-Atomic
                                                  (is (codes "RoleBinding")
                                                    || is (codes "ClusterRoleBinding"))
                                                  (sure-Atomic _ (apply_role_binding-Keeps))
                                                  (if-Atomic (is (codes "ServiceAccount"))
                                                    (sure-Atomic _ (apply_service_account-Keeps))
                                                    (if-Atomic (is (codes "LimitRange"))
                                                      (sure-Atomic _ (apply_limit_range-Keeps))
                                                      (if-Atomic (is (codes "RbacRole"))
                                                        (sure-Atomic _ (apply_rbac_role-Keeps))
                                                        (if-Atomic (is (codes "Guard"))
                                                          (sure-Atomic _ (apply_guard-Keeps))
                                                          (if-Atomic (is (codes "Operator"))
                                                            (sure-Atomic _ (apply_operator-Keeps))
                                                            (if-Atomic (is (codes "CustomResource"))
                                                            (sure-Atomic _
                                                            (apply_custom_resource-Keeps read))
                                                            (if-Atomic (is (codes "NeuroPod"))
                                                            (sure-Atomic _
                                                            (apply_neuropod-Keeps read))
                                                            (sure-Atomic _
                                                            apply_unsupported-Keeps))))))))))))))))))))))))))))))

-- Whatever the manifest is: where `apply` returns an error, the world is the one from before.
pub apply-keeps_on_error :
    (read : Readers) (trim : Text → Text) (w : DesiredWorld) (r : Resource) (a : Applied) (e : Text)
    → apply read trim w r ≡ some a
    → a.outcome ≡ Outcome.err e
    → a.world ≡ w
unfolding apply
apply-keeps_on_error read trim w r a e h k = (arm_of-Atomic read trim r.kind).keeps w r a h e k
