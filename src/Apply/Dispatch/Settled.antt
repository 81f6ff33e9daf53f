-- ===== src/Apply/Dispatch/Settled.antt =====
-- Applying the same manifest again changes nothing more.
use royak.Apply.Dispatch.Settled.Runs.{
  apply_cron_job-Settles, apply_job-Settles, apply_daemon_set-Settles,
}
use royak.Apply.Dispatch.Settled.Arms.{
  apply_unsupported-Twice, apply_neuropod-Twice, apply_custom_resource-Twice, apply_operator-Twice,
  apply_guard-Twice, apply_rbac_role-Twice, apply_limit_range-Twice, apply_service_account-Twice,
  apply_role-Twice, apply_webhook-Twice, apply_pipeline-Twice, apply_repository-Twice,
  apply_function-Twice, apply_config-Twice, apply_autoscaler-Twice, apply_quota-Twice,
  apply_network_policy-Twice, apply_ingress-Twice, apply_ingress_class-Twice, apply_volume-Twice,
  apply_storage_class-Twice, apply_namespace-Twice, apply_service-Twice, apply_secret-Twice,
  apply_config_map-Twice,
}
use royak.Apply.Dispatch.Settled.Base.{sure-Settles, if-Settles, Settles}
mod Base
mod Arms
mod Runs
use royak.Prelude.{if◌then◌else◌, Text, codes, text_eq, ◌≡◌, Bool, false, ◌||◌, some}
use royak.Apply.Base.{Readers, Applied}
use royak.Apply.Dispatch.{arm_of, apply}
use royak.World.Manifest.{Resource}
use royak.World.State.{DesiredWorld}

-- The kinds that a workload, a claim or a binding has.
abbrev is_workload : Text → Bool
is_workload kind =
    let is : Text → Bool = text_eq kind in
    is (codes "Deployment")
    || is (codes "ReplicaSet")
    || is (codes "Pod")
    || is (codes "StatefulSet")

abbrev is_claim : Text → Bool
is_claim kind = text_eq kind (codes "PersistentVolumeClaim")

abbrev is_binding : Text → Bool
is_binding kind =
    let is : Text → Bool = text_eq kind in
    is (codes "RoleBinding") || is (codes "ClusterRoleBinding")

arm_of-Settles :
    (read : Readers) (trim : Text → Text) (kind : Text)
    → is_workload kind ≡ false
    → is_claim kind ≡ false
    → is_binding kind ≡ false
    → Settles (arm_of read trim kind)
unfolding arm_of
arm_of-Settles read trim kind d c b =
    let is : Text → Bool = text_eq kind in
    if-Settles
      (is (codes "Deployment")
        || is (codes "ReplicaSet")
        || is (codes "Pod")
        || is (codes "StatefulSet"))
      (λ e. absurd (cc (e, d)))
      (if-Settles (is (codes "ConfigMap")) (λ e. sure-Settles _ apply_config_map-Twice)
        (if-Settles (is (codes "Secret")) (λ e. sure-Settles _ (apply_secret-Twice read))
          (if-Settles (is (codes "Service")) (λ e. sure-Settles _ (apply_service-Twice read))
            (if-Settles (is (codes "Namespace")) (λ e. sure-Settles _ apply_namespace-Twice)
              (if-Settles (is (codes "StorageClass"))
                (λ e. sure-Settles _ apply_storage_class-Twice)
                (if-Settles (is (codes "PersistentVolume")) (λ e. sure-Settles _ apply_volume-Twice)
                  (if-Settles (is (codes "PersistentVolumeClaim")) (λ e. absurd (cc (e, c)))
                    (if-Settles (is (codes "DaemonSet")) (λ e. apply_daemon_set-Settles read)
                      (if-Settles (is (codes "Job")) (λ e. apply_job-Settles read)
                        (if-Settles (is (codes "CronJob")) (λ e. apply_cron_job-Settles read)
                          (if-Settles (is (codes "IngressClass"))
                            (λ e. sure-Settles _ apply_ingress_class-Twice)
                            (if-Settles (is (codes "Ingress"))
                              (λ e. sure-Settles _ apply_ingress-Twice)
                              (if-Settles (is (codes "NetworkPolicy"))
                                (λ e. sure-Settles _ (apply_network_policy-Twice read trim))
                                (if-Settles (is (codes "ResourceQuota"))
                                  (λ e. sure-Settles _ (apply_quota-Twice read))
                                  (if-Settles
                                    (is (codes "HorizontalPodAutoscaler") || is (codes "HPA"))
                                    (λ e. sure-Settles _ (apply_autoscaler-Twice read))
                                    (if-Settles (is (codes "Config"))
                                      (λ e. sure-Settles _ (apply_config-Twice read))
                                      (if-Settles (is (codes "Function"))
                                        (λ e. sure-Settles _ (apply_function-Twice read))
                                        (if-Settles (is (codes "Repository"))
                                          (λ e. sure-Settles _ (apply_repository-Twice read))
                                          (if-Settles (is (codes "Pipeline"))
                                            (λ e. sure-Settles _ (apply_pipeline-Twice read))
                                            (if-Settles
                                              (is (codes "ValidatingWebhookConfiguration"))
                                              (λ e. sure-Settles _ apply_webhook-Twice)
                                              (if-Settles
                                                (is (codes "Role") || is (codes "ClusterRole"))
                                                (λ e. sure-Settles _ apply_role-Twice)
                                                (if-Settles
                                                  (is (codes "RoleBinding")
                                                    || is (codes "ClusterRoleBinding"))
                                                  (λ e. absurd (cc (e, b)))
                                                  (if-Settles (is (codes "ServiceAccount"))
                                                    (λ e.
                                                      sure-Settles _ apply_service_account-Twice)
                                                    (if-Settles (is (codes "LimitRange"))
                                                      (λ e. sure-Settles _ apply_limit_range-Twice)
                                                      (if-Settles (is (codes "RbacRole"))
                                                        (λ e. sure-Settles _ apply_rbac_role-Twice)
                                                        (if-Settles (is (codes "Guard"))
                                                          (λ e. sure-Settles _ apply_guard-Twice)
                                                          (if-Settles (is (codes "Operator"))
                                                            (λ e.
                                                            sure-Settles _ apply_operator-Twice)
                                                            (if-Settles
                                                            (is (codes "CustomResource"))
                                                            (λ e.
                                                            sure-Settles _
                                                            (apply_custom_resource-Twice read))
                                                            (if-Settles (is (codes "NeuroPod"))
                                                            (λ e.
                                                            sure-Settles _
                                                            (apply_neuropod-Twice read))
                                                            (sure-Settles _
                                                            apply_unsupported-Twice))))))))))))))))))))))))))))))

-- A manifest of any kind but a workload, a claim or a role binding leaves the same world when it
-- is applied once more.
pub apply-again :
    (read : Readers) (trim : Text → Text) (w : DesiredWorld) (r : Resource) (a b : Applied)
    → is_workload r.kind ≡ false
    → is_claim r.kind ≡ false
    → is_binding r.kind ≡ false
    → apply read trim w r ≡ some a
    → apply read trim a.world r ≡ some b
    → b.world ≡ a.world
unfolding apply
apply-again read trim w r a b d c bi e f =
    (arm_of-Settles read trim r.kind d c bi).again w r a b e f
