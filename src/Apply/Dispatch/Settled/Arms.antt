-- ===== src/Apply/Dispatch/Settled/Arms.antt =====
-- The arms that need no container, run twice.
use royak.Apply.Dispatch.Settled.Base.{
  set_config-twice, either-Twice, push_new-twice, insert-twice, needs-Twice, Twice,
}
use royak.Prelude.{◌>>=◌, Text, codes, refl, ap, [], ◌∷◌, ◌++◌}
use royak.Apply.Base.{Readers, failed, done, no_spec}
use royak.Apply.Storage.{apply_storage_class, apply_volume}
use royak.Apply.Settings.{apply_config_map, apply_secret, apply_namespace, apply_config}
use royak.Apply.Runs.{apply_autoscaler}
use royak.Apply.Network.{
  as_service, apply_service, apply_ingress_class, apply_ingress, apply_network_policy,
}
use royak.Apply.Limits.{apply_quota, apply_limit_range}
use royak.Apply.Access.{apply_role, apply_service_account, apply_rbac_role, apply_webhook, head_of}
use royak.Apply.Extensions.{apply_guard, apply_operator, apply_custom_resource, apply_neuropod}
use royak.Apply.Delivery.{apply_function, apply_repository, apply_pipeline}
use royak.Apply.Dispatch.{apply_unsupported}
use royak.World.Manifest.{Resource}
use royak.World.Yaml.{get_key_of, get_at_path, as_text, as_sequence}

pub apply_storage_class-Twice : (r : Resource) → Twice (λ w. apply_storage_class w r)
unfolding apply_storage_class done
apply_storage_class-Twice r =
    needs-Twice (r.spec) (λ w. _) (λ w s. _)
      (λ s w. ap (λ m. record w { storage_classes = m }) (insert-twice _ _ w.storage_classes))

pub apply_volume-Twice : (r : Resource) → Twice (λ w. apply_volume w r)
unfolding apply_volume
apply_volume-Twice r =
    needs-Twice (r.spec) (λ w. _) (λ w s. _)
      (λ s w. ap (λ m. record w { pvs = m }) (insert-twice _ _ w.pvs))

pub apply_config_map-Twice : (r : Resource) → Twice (λ w. apply_config_map w r)
unfolding apply_config_map
apply_config_map-Twice r =
    λ w. ap (λ m. record w { configmaps = m }) (insert-twice _ _ w.configmaps)

pub apply_secret-Twice : (read : Readers) (r : Resource) → Twice (λ w. apply_secret read w r)
unfolding apply_secret done
apply_secret-Twice read r = λ w. ap (λ m. record w { secrets = m }) (insert-twice _ _ w.secrets)

pub apply_namespace-Twice : (r : Resource) → Twice (λ w. apply_namespace w r)
unfolding apply_namespace done
apply_namespace-Twice r =
    λ w. ap (λ m. record w { namespaces = m }) (push_new-twice w.namespaces r.metadata.name)

pub apply_ingress_class-Twice : (r : Resource) → Twice (λ w. apply_ingress_class w r)
unfolding apply_ingress_class done
apply_ingress_class-Twice r = λ w.
    ap (λ m. record w { ingress_classes = m }) (push_new-twice w.ingress_classes r.metadata.name)

pub apply_config-Twice : (read : Readers) (r : Resource) → Twice (λ w. apply_config read w r)
unfolding apply_config done failed
apply_config-Twice read r =
    needs-Twice r.spec (λ w. no_spec) _
      (λ s.
        either-Twice (read.config_spec s) (λ w e. failed (codes "Config parse error: " ++ e) w) _
          (λ e w. refl) (λ b w. ap (λ m. record w { config = m }) (set_config-twice b w.config)))

pub apply_function-Twice : (read : Readers) (r : Resource) → Twice (λ w. apply_function read w r)
unfolding apply_function done failed
apply_function-Twice read r =
    needs-Twice r.spec (λ w. no_spec) _
      (λ s.
        either-Twice (read.function_spec s) (λ w e. failed (codes "Function parse error: " ++ e) w)
          _ (λ e w. refl)
          (λ b w. ap (λ m. record w { functions = m }) (insert-twice _ _ w.functions)))

pub apply_repository-Twice :
    (read : Readers) (r : Resource) → Twice (λ w. apply_repository read w r)
unfolding apply_repository done failed
apply_repository-Twice read r =
    needs-Twice r.spec (λ w. no_spec) _
      (λ s.
        either-Twice (read.repository_spec s)
          (λ w e. failed (codes "Repository parse error: " ++ e) w) _ (λ e w. refl)
          (λ b w. ap (λ m. record w { repositories = m }) (insert-twice _ _ w.repositories)))

pub apply_pipeline-Twice : (read : Readers) (r : Resource) → Twice (λ w. apply_pipeline read w r)
unfolding apply_pipeline done failed
apply_pipeline-Twice read r =
    needs-Twice r.spec (λ w. no_spec) _
      (λ s.
        either-Twice (read.pipeline_spec s) (λ w e. failed (codes "Pipeline parse error: " ++ e) w)
          _ (λ e w. refl)
          (λ b w. ap (λ m. record w { pipelines = m }) (insert-twice _ _ w.pipelines)))

pub apply_service-Twice : (read : Readers) (r : Resource) → Twice (λ w. apply_service read w r)
unfolding apply_service done
apply_service-Twice read r =
    needs-Twice (as_service read r) (λ w. _) (λ w s. _)
      (λ s w. ap (λ m. record w { services = m }) (insert-twice _ _ w.services))

pub apply_ingress-Twice : (r : Resource) → Twice (λ w. apply_ingress w r)
unfolding apply_ingress done
apply_ingress-Twice r =
    needs-Twice (r.spec) (λ w. _) (λ w s. _)
      (λ s w. ap (λ m. record w { ingresses = m }) (insert-twice _ _ w.ingresses))

pub apply_network_policy-Twice :
    (read : Readers) (trim : Text → Text) (r : Resource)
    → Twice (λ w. apply_network_policy read trim w r)
unfolding apply_network_policy done
apply_network_policy-Twice read trim r =
    needs-Twice (r.spec) (λ w. _) (λ w s. _)
      (λ s w. ap (λ m. record w { network_policies = m }) (insert-twice _ _ w.network_policies))

pub apply_quota-Twice : (read : Readers) (r : Resource) → Twice (λ w. apply_quota read w r)
unfolding apply_quota done
apply_quota-Twice read r =
    needs-Twice (r.spec) (λ w. _) (λ w s. _)
      (λ s w. ap (λ m. record w { resource_quotas = m }) (insert-twice _ _ w.resource_quotas))

pub apply_limit_range-Twice : (r : Resource) → Twice (λ w. apply_limit_range w r)
unfolding apply_limit_range done
apply_limit_range-Twice r =
    needs-Twice (r.spec) (λ w. _) (λ w s. _)
      (λ s w. ap (λ m. record w { limit_ranges = m }) (insert-twice _ _ w.limit_ranges))

pub apply_autoscaler-Twice :
    (read : Readers) (r : Resource) → Twice (λ w. apply_autoscaler read w r)
unfolding apply_autoscaler done
apply_autoscaler-Twice read r =
    needs-Twice (r.spec) (λ w. _) (λ w s. _)
      (λ s w. ap (λ m. record w { hpas = m }) (insert-twice _ _ w.hpas))

pub apply_role-Twice : (r : Resource) → Twice (λ w. apply_role w r)
unfolding apply_role done
apply_role-Twice r =
    needs-Twice (r.rules >>= as_sequence) (λ w. _) (λ w s. _)
      (λ s w. ap (λ m. record w { rbac_roles = m }) (insert-twice _ _ w.rbac_roles))

pub apply_service_account-Twice : (r : Resource) → Twice (λ w. apply_service_account w r)
unfolding apply_service_account done
apply_service_account-Twice r = λ w. refl

pub apply_rbac_role-Twice : (r : Resource) → Twice (λ w. apply_rbac_role w r)
unfolding apply_rbac_role done
apply_rbac_role-Twice r =
    needs-Twice r.spec (λ w. _) (λ w s. _)
      (λ sv.
        needs-Twice _ (λ w. _) (λ w s. _)
          (λ s w. ap (λ m. record w { rbac_roles = m }) (insert-twice _ _ w.rbac_roles)))

pub apply_webhook-Twice : (r : Resource) → Twice (λ w. apply_webhook w r)
unfolding apply_webhook done
apply_webhook-Twice r =
    needs-Twice r.spec (λ w. no_spec) _
      (λ sv.
        needs-Twice (get_key_of (codes "webhooks") sv >>= as_sequence)
          (λ w. codes "needs spec.webhooks") _
          (λ hooks.
            needs-Twice (head_of hooks) (λ w. codes "needs at least one webhook") _
              (λ first.
                needs-Twice
                  (get_at_path (codes "clientConfig" ∷ codes "url" ∷ []) first >>= as_text)
                  (λ w. codes "webhook needs clientConfig.url (Royak calls the URL directly)") _
                  (λ url w.
                    ap (λ m. record w { admission_webhooks = m })
                      (insert-twice _ _ w.admission_webhooks)))))

pub apply_guard-Twice : (r : Resource) → Twice (λ w. apply_guard w r)
unfolding apply_guard done
apply_guard-Twice r =
    needs-Twice (r.spec) (λ w. _) (λ w s. _)
      (λ s w. ap (λ m. record w { guards = m }) (insert-twice _ _ w.guards))

pub apply_operator-Twice : (r : Resource) → Twice (λ w. apply_operator w r)
unfolding apply_operator done
apply_operator-Twice r =
    needs-Twice r.spec (λ w. _) (λ w s. _)
      (λ sv.
        needs-Twice _ (λ w. _) (λ w s. _)
          (λ s w. ap (λ m. record w { operators = m }) (insert-twice _ _ w.operators)))

pub apply_custom_resource-Twice :
    (read : Readers) (r : Resource) → Twice (λ w. apply_custom_resource read w r)
unfolding apply_custom_resource done
apply_custom_resource-Twice read r =
    needs-Twice (r.spec) (λ w. _) (λ w s. _)
      (λ s w. ap (λ m. record w { custom_resources = m }) (insert-twice _ _ w.custom_resources))

pub apply_neuropod-Twice : (read : Readers) (r : Resource) → Twice (λ w. apply_neuropod read w r)
unfolding apply_neuropod
apply_neuropod-Twice read r = needs-Twice r.spec (λ w. _) (λ w s. _) (λ s w. refl)

pub apply_unsupported-Twice : (r : Resource) → Twice (λ w. apply_unsupported w r)
unfolding apply_unsupported failed
apply_unsupported-Twice r = λ w. refl
