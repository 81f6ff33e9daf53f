-- ===== src/Quota/Tests.antt =====
-- A quota of five pods on a deployment of three.
use royak.Prelude.{
  ltb, decimal, All, filter, codes, text_eq, ℕ, ◌^◌, arith, max, ◌≡◌, refl, ◌≢◌, ◌↔◌, ◌⊎◌, none,
  some, [], ◌∷◌,
}
use royak.Prelude.{values}
use royak.Quota.{
  QuotaFloats, check_quota, check_quotas, exceeds, over_count, over, over_cpu, total_desired,
  deployments_in, sum,
}
use royak.Quota.Totals.{FitsWords, total_in}
use royak.Quota.Laws.{IsWithin, check_quota_iff}
use royak.Samples.{plain_deployment}
use royak.World.State.{DesiredWorld, new_world}
use royak.World.Services.{StoredResourceQuota}

-- Bit patterns compared as numbers, and nothing but constants otherwise.
abbrev floats : QuotaFloats
floats = record {
  zero_f32 = 0;
  mul = λ a b. 0;
  of_u32 = λ n. n;
  sum = λ fs. 0;
  gt = λ a b. ltb b a;
  show_tenths = λ f. decimal f;
}

abbrev pods_quota : ℕ → StoredResourceQuota
pods_quota max = record {
  name = codes "small";
  namespace = codes "default";
  hard_cpu = none;
  hard_memory = none;
  hard_pods = some max;
  hard_services = none;
  hard_configmaps = none;
  hard_secrets = none;
}

abbrev limited : ℕ → DesiredWorld
limited max = record new_world {
  deployments = (codes "web", plain_deployment (codes "web") 3) ∷ [];
  resource_quotas = (codes "small", pods_quota max) ∷ [];
}

three_of_two :
    check_quota floats (limited 2) (codes "default") ≡ some (codes "quota/small: pods 3/2 exceeded")
unfolding check_quota check_quotas exceeds over_count over over_cpu values total_desired
    deployments_in filter sum text_eq decimal
three_of_two = refl

limited-FitsWords : FitsWords (limited 5) (codes "default")
unfolding total_in text_eq new_world
limited-FitsWords = record {
  pods_fit = omega arith;
  memory_fits = omega arith;
  services_fit = omega arith;
  configmaps_fit = omega arith;
  secrets_fit = omega arith;
}

check_quota_iff_example :
    (check_quota floats (limited 5) (codes "default") ≡ none)
    ↔ All
        (λ q. (q.namespace ≢ codes "default") ⊎ IsWithin floats (limited 5) q (codes "default"))
        (values (limited 5).resource_quotas)
check_quota_iff_example = check_quota_iff floats (limited 5) (codes "default") limited-FitsWords

-- Two deployments of 2 ^ 31 replicas add up to no pod at all.
abbrev wrapping : DesiredWorld
wrapping = record (limited 2) {
  deployments =
      (codes "a", plain_deployment (codes "a") (2 ^ 31))
      ∷ (codes "b", plain_deployment (codes "b") (2 ^ 31))
      ∷ [];
}

total_wraps : check_quota floats wrapping (codes "default") ≡ none
unfolding check_quota check_quotas exceeds over_count over over_cpu values total_desired
    deployments_in filter sum text_eq
total_wraps = refl
