-- ===== src/Quota/Laws.antt =====
-- What a passed quota check guarantees.
use royak.World.Workloads.{F32}
use royak.Prelude.{
  values, sym, subst, if◌then◌else◌, Bool-cases, All, Text, codes, text_eq, text_eq_sound, text_ne,
  ℕ, ◌≤◌, ◌≡◌, refl, ◌≢◌, ◌↔◌, ◌⊎◌, inl, inr, false, not, Option, none, some, List, [], ◌∷◌, arith,
}
use royak.Quota.{
  QuotaFloats, or_else, over, over_count, over_cpu, exceeds, check_quotas, check_quota,
}
use royak.Quota.Totals.{
  pods_of, memory_of, services_of, configmaps_of, secrets_of, cores_of, FitsWords,
  total_desired-pods, current_mem-memory, services_in-services, configmaps_in-configmaps,
  secrets_in-secrets, current_cpu-cores,
}
use royak.World.State.{DesiredWorld}
use royak.World.Services.{StoredResourceQuota}

-- A limit, if there is one, is kept.
pub Below : Option ℕ → ℕ → Type 0
Below none total = Unit
Below (some limit) total = total ≤ limit

pub CpuBelow : QuotaFloats → Option F32 → F32 → Type 0
CpuBelow ops none total = Unit
CpuBelow ops (some limit) total = ops.gt total limit ≡ false

-- Each limit that a quota states holds of what is stored in its namespace.
pub record IsWithin (ops : QuotaFloats) (w : DesiredWorld) (q : StoredResourceQuota)
    (namespace : Text) : Type 0 where
  pub pods : Below q.hard_pods (pods_of w namespace)
  pub cpu : CpuBelow ops q.hard_cpu (ops.sum (cores_of ops namespace w.deployments))
  pub memory : Below q.hard_memory (memory_of w namespace)
  pub services : Below q.hard_services (services_of w namespace)
  pub configmaps : Below q.hard_configmaps (configmaps_of w namespace)
  pub secrets : Below q.hard_secrets (secrets_of w namespace)

or_else_iff {ℓ κ} :
    {A : Type 0} {P : Type ℓ} {Q : Type κ} {a b : Option A}
    → (a ≡ none) ↔ P
    → (b ≡ none) ↔ Q
    → (or_else a b ≡ none) ↔ (P × Q)
or_else_iff {a = none} h k = (λ e. (h.0 refl, k.0 e), λ e. k.1 e.1)
or_else_iff {a = some x} h k = (λ e. absurd (cc e), λ e. absurd (cc (h.1 e.0)))

over_count_iff :
    (q : StoredResourceQuota) (what unit : Text) (limit : Option ℕ) (total : ℕ)
    → (over_count q what unit limit total ≡ none) ↔ Below limit total
unfolding over_count over Below
over_count_iff q what unit none total = (λ e. tt, λ e. refl)
over_count_iff q what unit (some limit) total = ground arith

over_cpu_iff :
    (ops : QuotaFloats) (q : StoredResourceQuota) (limit : Option F32) (total : F32)
    → (over_cpu ops q limit total ≡ none) ↔ CpuBelow ops limit total
unfolding over_cpu CpuBelow
over_cpu_iff ops q none total = (λ e. tt, λ e. refl)
over_cpu_iff ops q (some limit) total = ground arith

exceeds_iff :
    (ops : QuotaFloats) (w : DesiredWorld) (q : StoredResourceQuota) (namespace : Text)
    → FitsWords w namespace
    → (exceeds ops w q namespace ≡ none) ↔ IsWithin ops w q namespace
unfolding exceeds
exceeds_iff ops w q namespace fits =
    let all =
      or_else_iff (at_total (codes "pods") [] q.hard_pods (total_desired-pods w namespace fits)) (
        or_else_iff
          (subst
            (λ n.
              (over_cpu ops q q.hard_cpu n ≡ none)
              ↔ CpuBelow ops q.hard_cpu (ops.sum (cores_of ops namespace w.deployments)))
            (sym (current_cpu-cores ops w namespace))
            (over_cpu_iff ops q q.hard_cpu (ops.sum (cores_of ops namespace w.deployments))))
          (or_else_iff
            (at_total (codes "memory") (codes " Mi") q.hard_memory
              (current_mem-memory w namespace fits))
            (or_else_iff
              (at_total (codes "services") [] q.hard_services
                (services_in-services w namespace fits))
              (or_else_iff
                (at_total (codes "configmaps") [] q.hard_configmaps
                  (configmaps_in-configmaps w namespace fits))
                (at_total (codes "secrets") [] q.hard_secrets
                  (secrets_in-secrets w namespace fits)))))) in
    (
      λ e.
          let p = all.0 e in
          record {
            pods = p.0;
            cpu = p.1.0;
            memory = p.1.1.0;
            services = p.1.1.1.0;
            configmaps = p.1.1.1.1.0;
            secrets = p.1.1.1.1.1;
          },
      λ i. all.1 (i.pods, (i.cpu, (i.memory, (i.services, (i.configmaps, i.secrets))))),
    )
  where
    at_total :
        (what unit : Text) (limit : Option ℕ) {total counted : ℕ}
        → total ≡ counted
        → (over_count q what unit limit total ≡ none) ↔ Below limit counted
    at_total what unit limit {total = total} e =
        subst (λ n. (over_count q what unit limit total ≡ none) ↔ Below limit n) e
          (over_count_iff q what unit limit total)

-- A check that is skipped unless a text is the wanted one.
skip_iff {ℓ κ} :
    {A : Type 0} {P : Type ℓ} {Q : Type κ} (s t : Text) (a b : Option A)
    → (a ≡ none) ↔ P
    → (b ≡ none) ↔ Q
    → ((if not (text_eq s t) then b else or_else a b) ≡ none) ↔ (((s ≢ t) ⊎ P) × Q)
skip_iff s t a b h k = elim (Bool-cases (text_eq s t)) [
  | inl e ↦ rw e (
    λ n. let p = (or_else_iff h k).0 n in (inr p.0, p.1),
    λ p. elim p.0 [
      | inl ne ↦ absurd (ne (text_eq_sound s t e))
      | inr q ↦ (or_else_iff h k).1 (q, p.1)
    ],
  )
  | inr e ↦ rw e (λ n. (inl (text_ne s t e), k.0 n), λ p. k.1 p.1)
]

check_quotas_iff :
    (ops : QuotaFloats) (w : DesiredWorld) (namespace : Text) (quotas : List StoredResourceQuota)
    → FitsWords w namespace
    → (check_quotas ops w namespace quotas ≡ none)
      ↔ All (λ q. (q.namespace ≢ namespace) ⊎ IsWithin ops w q namespace) quotas
unfolding check_quotas
check_quotas_iff ops w namespace [] fits = (λ e. tt, λ e. refl)
check_quotas_iff ops w namespace (q ∷ qs) fits =
    skip_iff q.namespace namespace (exceeds ops w q namespace) (check_quotas ops w namespace qs)
      (exceeds_iff ops w q namespace fits) (check_quotas_iff ops w namespace qs fits)

-- Where the totals of a namespace fit the machine's integers, it passes the check exactly if every
-- quota is one of another namespace or has each limit that it states kept by what is stored in the
-- namespace.
pub check_quota_iff :
    (ops : QuotaFloats) (w : DesiredWorld) (namespace : Text)
    → FitsWords w namespace
    → (check_quota ops w namespace ≡ none)
      ↔ All (λ q. (q.namespace ≢ namespace) ⊎ IsWithin ops w q namespace) (values w.resource_quotas)
unfolding check_quota
check_quota_iff ops w namespace fits =
    check_quotas_iff ops w namespace (values w.resource_quotas) fits
