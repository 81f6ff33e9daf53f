-- ===== src/Quota/Totals.antt =====
-- What the stored resources of a namespace come to, counted without a filter or a wrap-around, and that
-- the sums of `check_quota` are that.
use royak.World.Workloads.{F32, StoredDeployment}
use royak.Prelude.{
  values, Map, filter, map, length, unwrap_or, ◌>>=◌, ◌+◌, ◌*◌, ◌^◌, ◌<◌, ap, if◌then◌else◌,
  Bool-cases, Text, text_eq, ℕ, ◌≡◌, refl, inl, inr, List, [], ◌∷◌, arith,
}
use royak.Quota.{
  QuotaFloats, sum, deployments_in, mem_demand, cpu_demand, total_desired, current_mem, services_in,
  configmaps_in, secrets_in, current_cpu,
}
use royak.World.State.{DesiredWorld}

-- What the stored resources of a namespace come to, counted with `size`.
unfoldable pub total_in {ℓ} : {V : Type ℓ} → (V → Text) → (V → ℕ) → Text → Map V → ℕ
total_in namespace_of size namespace [] = 0
total_in namespace_of size namespace ((k, v) ∷ m) =
    let rest = total_in namespace_of size namespace m in
    if text_eq (namespace_of v) namespace then size v + rest else rest

abbrev pub pods_of : DesiredWorld → Text → ℕ
pods_of w namespace = total_in (λ d. d.namespace) (λ d. d.replicas) namespace w.deployments

abbrev pub memory_of : DesiredWorld → Text → ℕ
memory_of w namespace =
    total_in (λ d. d.namespace)
      (λ d. unwrap_or (d.resource_limits >>= λ r. r.mem_limit) 0 * d.replicas) namespace
      w.deployments

abbrev pub services_of : DesiredWorld → Text → ℕ
services_of w namespace = total_in (λ s. s.namespace) (λ s. 1) namespace w.services

abbrev pub configmaps_of : DesiredWorld → Text → ℕ
configmaps_of w namespace = total_in (λ c. c.namespace) (λ c. 1) namespace w.configmaps

abbrev pub secrets_of : DesiredWorld → Text → ℕ
secrets_of w namespace = total_in (λ s. s.namespace) (λ s. 1) namespace w.secrets

-- The cores that the deployments of a namespace ask for, in the order of the map.
unfoldable pub cores_of : QuotaFloats → Text → Map StoredDeployment → List F32
cores_of ops namespace [] = []
cores_of ops namespace ((k, d) ∷ m) =
    let rest = cores_of ops namespace m in
    if text_eq d.namespace namespace
    then ops.mul (unwrap_or (d.resource_limits >>= λ r. r.cpu_limit) ops.zero_f32)
        (ops.of_u32 d.replicas)
      ∷ rest
    else rest

-- The totals of a namespace fit the integers that they are added up in.
pub record FitsWords (w : DesiredWorld) (namespace : Text) : Type 0 where
  pub pods_fit : pods_of w namespace < 2 ^ 32
  pub memory_fits : memory_of w namespace < 2 ^ 64
  pub services_fit : services_of w namespace < 2 ^ 32
  pub configmaps_fit : configmaps_of w namespace < 2 ^ 32
  pub secrets_fit : secrets_of w namespace < 2 ^ 32

-- The sums of the source are these totals.
sum-filter {ℓ} :
    {V : Type ℓ} (namespace_of : V → Text) (size : V → ℕ) (namespace : Text) (m : Map V)
    → sum (map size (filter (λ v. text_eq (namespace_of v) namespace) (values m)))
      ≡ total_in namespace_of size namespace m
unfolding sum filter values total_in
sum-filter namespace_of size namespace [] = refl
sum-filter namespace_of size namespace ((k, v) ∷ m) =
    ground (arith, sum-filter namespace_of size namespace m)

length-filter {ℓ} :
    {V : Type ℓ} (namespace_of : V → Text) (namespace : Text) (m : Map V)
    → length (filter (λ v. text_eq (namespace_of v) namespace) (values m))
      ≡ total_in namespace_of (λ v. 1) namespace m
unfolding filter values total_in
length-filter namespace_of namespace [] = refl
length-filter namespace_of namespace ((k, v) ∷ m) =
    ground (arith, length-filter namespace_of namespace m)

pub total_desired-pods :
    (w : DesiredWorld) (namespace : Text)
    → FitsWords w namespace
    → total_desired w namespace ≡ pods_of w namespace
unfolding total_desired deployments_in
total_desired-pods w namespace fits =
    omega (
      arith,
      fits.pods_fit,
      sum-filter (λ d. d.namespace) (λ d. d.replicas) namespace w.deployments,
    )

-- No deployment's own product wraps where the whole total does not.
mem_demand-sum :
    (namespace : Text) (m : Map StoredDeployment)
    → total_in
        (λ d. d.namespace)
        (λ d. unwrap_or (d.resource_limits >>= λ r. r.mem_limit) 0 * d.replicas)
        namespace
        m
      < 2 ^ 64
    → sum (map mem_demand (filter (λ d. text_eq d.namespace namespace) (values m)))
      ≡ total_in
          (λ d. d.namespace)
          (λ d. unwrap_or (d.resource_limits >>= λ r. r.mem_limit) 0 * d.replicas)
          namespace
          m
unfolding sum filter values total_in mem_demand
mem_demand-sum namespace [] small = refl
mem_demand-sum namespace ((k, d) ∷ m) small = elim (Bool-cases (text_eq d.namespace namespace)) [
  | inl e ↦ ground (arith, e, mem_demand-sum namespace m (ground arith))
  | inr e ↦ ground (arith, e, mem_demand-sum namespace m (ground arith))
]

pub current_mem-memory :
    (w : DesiredWorld) (namespace : Text)
    → FitsWords w namespace
    → current_mem w namespace ≡ memory_of w namespace
unfolding current_mem deployments_in
current_mem-memory w namespace fits =
    omega (arith, fits.memory_fits, mem_demand-sum namespace w.deployments fits.memory_fits)

pub services_in-services :
    (w : DesiredWorld) (namespace : Text)
    → FitsWords w namespace
    → services_in w namespace ≡ services_of w namespace
unfolding services_in
services_in-services w namespace fits =
    omega (arith, fits.services_fit, length-filter (λ s. s.namespace) namespace w.services)

pub configmaps_in-configmaps :
    (w : DesiredWorld) (namespace : Text)
    → FitsWords w namespace
    → configmaps_in w namespace ≡ configmaps_of w namespace
unfolding configmaps_in
configmaps_in-configmaps w namespace fits =
    omega (arith, fits.configmaps_fit, length-filter (λ c. c.namespace) namespace w.configmaps)

pub secrets_in-secrets :
    (w : DesiredWorld) (namespace : Text)
    → FitsWords w namespace
    → secrets_in w namespace ≡ secrets_of w namespace
unfolding secrets_in
secrets_in-secrets w namespace fits =
    omega (arith, fits.secrets_fit, length-filter (λ s. s.namespace) namespace w.secrets)

map-cpu_demand :
    (ops : QuotaFloats) (namespace : Text) (m : Map StoredDeployment)
    → map (cpu_demand ops) (filter (λ d. text_eq d.namespace namespace) (values m))
      ≡ cores_of ops namespace m
unfolding filter values cores_of cpu_demand
map-cpu_demand ops namespace [] = refl
map-cpu_demand ops namespace ((k, d) ∷ m) = ground (arith, map-cpu_demand ops namespace m)

pub current_cpu-cores :
    (ops : QuotaFloats) (w : DesiredWorld) (namespace : Text)
    → current_cpu ops w namespace ≡ ops.sum (cores_of ops namespace w.deployments)
unfolding current_cpu deployments_in
current_cpu-cores ops w namespace = ap ops.sum (map-cpu_demand ops namespace w.deployments)
