-- ===== src/Quota.antt =====
-- src/reconcile.rs, `DesiredWorld::check_quota`. The f32 operations are parameters; the sums of
-- u32 and u64 wrap, as they do in a release build. `none` is `Ok(())`.
use royak.World.Workloads.{ResourceLimits, StoredDeployment, F32}
pub mod Totals
pub mod Laws
mod Tests
use royak.Prelude.{
  values, ltb, if◌then◌else◌, unwrap_or, ◌>>=◌, decimal, length, filter, Text, codes, text_eq, ℕ,
  ◌+◌, ◌*◌, ◌/◌, ◌%◌, ◌^◌, max, Bool, not, Option, none, some, List, [], ◌∷◌, ◌++◌, map,
}
use royak.World.State.{DesiredWorld}
use royak.World.Services.{StoredResourceQuota}

pub record QuotaFloats : Type 0 where
  pub zero_f32 : F32
  pub mul : F32 → F32 → F32
  pub of_u32 : ℕ → F32
  pub sum : List F32 → F32
  -- `a > b`
  pub gt : F32 → F32 → Bool
  -- `{:.1}`
  pub show_tenths : F32 → Text

unfoldable pub sum : List ℕ → ℕ
sum [] = 0
sum (n ∷ ns) = n + sum ns

abbrev pub or_else {ℓ} : {A : Type ℓ} → Option A → Option A → Option A
or_else none b = b
or_else (some a) b = some a

unfoldable pub deployments_in : DesiredWorld → Text → List StoredDeployment
deployments_in w namespace = filter (λ d. text_eq d.namespace namespace) (values w.deployments)

unfoldable pub total_desired : DesiredWorld → Text → ℕ
unfolding deployments_in
total_desired w namespace = sum (map (λ d. d.replicas) (deployments_in w namespace)) % 2 ^ 32

abbrev pub limits_of : StoredDeployment → Option ResourceLimits
limits_of d = d.resource_limits

unfoldable pub mem_demand : StoredDeployment → ℕ
mem_demand d = (unwrap_or (limits_of d >>= λ r. r.mem_limit) 0 * d.replicas) % 2 ^ 64

unfoldable pub current_mem : DesiredWorld → Text → ℕ
current_mem w namespace = sum (map mem_demand (deployments_in w namespace)) % 2 ^ 64

unfoldable pub services_in : DesiredWorld → Text → ℕ
services_in w namespace =
    length (filter (λ s. text_eq s.namespace namespace) (values w.services)) % 2 ^ 32

unfoldable pub configmaps_in : DesiredWorld → Text → ℕ
configmaps_in w namespace =
    length (filter (λ c. text_eq c.namespace namespace) (values w.configmaps)) % 2 ^ 32

unfoldable pub secrets_in : DesiredWorld → Text → ℕ
secrets_in w namespace =
    length (filter (λ s. text_eq s.namespace namespace) (values w.secrets)) % 2 ^ 32

-- `quota/{name}: {what} {total}/{max}{unit} exceeded`
abbrev exceeded : StoredResourceQuota → Text → Text → Text → Text → Text
exceeded quota what total max unit =
    codes "quota/"
    ++ quota.name
    ++ codes ": "
    ++ what
    ++ codes " "
    ++ total
    ++ codes "/"
    ++ max
    ++ unit
    ++ codes " exceeded"

unfoldable pub over : Option ℕ → ℕ → (ℕ → Text) → Option Text
over none total message = none
over (some limit) total message = if ltb limit total then some (message limit) else none

unfoldable pub over_count : StoredResourceQuota → Text → Text → Option ℕ → ℕ → Option Text
unfolding over
over_count quota what unit limit total =
    over limit total (λ max. exceeded quota what (decimal total) (decimal max) unit)

module _ (ops : QuotaFloats) where
  unfoldable pub cpu_demand : StoredDeployment → F32
  cpu_demand d =
      ops.mul (unwrap_or (limits_of d >>= λ r. r.cpu_limit) ops.zero_f32) (ops.of_u32 d.replicas)

  unfoldable pub current_cpu : DesiredWorld → Text → F32
  current_cpu w namespace = ops.sum (map cpu_demand (deployments_in w namespace))

  unfoldable pub over_cpu : StoredResourceQuota → Option F32 → F32 → Option Text
  over_cpu quota none total = none
  over_cpu quota (some max) total =
      if ops.gt total max
      then some (
          exceeded quota (codes "cpu") (ops.show_tenths total) (ops.show_tenths max)
            (codes " cores"))
      else none

  -- The checks of one quota, in the order in which they are made.
  unfoldable pub exceeds : DesiredWorld → StoredResourceQuota → Text → Option Text
  exceeds w quota namespace =
      or_else (over_count quota (codes "pods") [] quota.hard_pods (total_desired w namespace)) (
        or_else (over_cpu quota quota.hard_cpu (current_cpu w namespace)) (
          or_else
            (over_count quota (codes "memory") (codes " Mi") quota.hard_memory
              (current_mem w namespace))
            (or_else
              (over_count quota (codes "services") [] quota.hard_services (services_in w namespace))
              (or_else
                (over_count quota (codes "configmaps") [] quota.hard_configmaps
                  (configmaps_in w namespace))
                (over_count quota (codes "secrets") [] quota.hard_secrets
                  (secrets_in w namespace))))))

  unfoldable pub check_quotas : DesiredWorld → Text → List StoredResourceQuota → Option Text
  check_quotas w namespace [] = none
  check_quotas w namespace (quota ∷ quotas) =
      let rest = check_quotas w namespace quotas in
      if not (text_eq quota.namespace namespace)
      then rest
      else or_else (exceeds w quota namespace) rest

  unfoldable pub check_quota : DesiredWorld → Text → Option Text
  check_quota w namespace = check_quotas w namespace (values w.resource_quotas)
