-- ===== src/Apply/Limits.antt =====
-- src/reconcile.rs, `DesiredWorld::apply`: resource quotas and limit ranges.
use royak.World.Services.{StoredResourceQuota}
use royak.World.Workloads.{F32}
use royak.Prelude.{
  if◌then◌else◌, unwrap_or, ◌>>=◌, decimal, insert, Text, codes, ℕ, ◌*◌, ◌%◌, ◌^◌, Option, none,
  some, List, [], ◌∷◌, ◌++◌,
}
use royak.Apply.Base.{
  Arm, Readers, done, needs, namespace_of, no_spec, join, ends_with, strip_suffix, trim_end_matches,
  parse_u64,
}
use royak.World.Yaml.{Yaml, get_key_of, as_text, as_number, as_sequence}
use royak.World.Manifest.{Resource}

abbrev or_else {ℓ} : {A : Type ℓ} → Option A → Option A → Option A
or_else none b = b
or_else (some a) b = some a

module _ (read : Readers) where
  unfoldable pub quota_cpu : Yaml → Option F32
  quota_cpu v = elim (read.as_f32 v) [
    | some f ↦ some f
    | none ↦ elim (as_text v) [
      | none ↦ none
      | some s ↦
          if ends_with s (codes "m")
          then (read.parse_f32 (trim_end_matches s (codes "m")) >>= λ m. some (read.per_thousand m))
          else read.parse_f32 s
    ]
  ]

unfoldable pub quota_mem : Yaml → Option ℕ
quota_mem v = elim (as_number v) [
  | some n ↦ some n
  | none ↦ elim (as_text v) [
    | none ↦ none
    | some s ↦ elim (strip_suffix s (codes "Gi")) [
      | some gi ↦ parse_u64 gi >>= λ n. some ((n * 1024) % 2 ^ 64)
      | none ↦ elim (strip_suffix s (codes "Mi")) [ some mi ↦ parse_u64 mi | none ↦ parse_u64 s ]
    ]
  ]
]

-- A count, `n as u32`, from a number or a string.
unfoldable pub quota_count : Yaml → Option ℕ
quota_count v = or_else (as_number v) (as_text v >>= parse_u64) >>= λ n. some (n % 2 ^ 32)

unfoldable pub quota_from : Readers → Resource → Yaml → StoredResourceQuota
unfolding quota_cpu quota_mem quota_count
quota_from read r hard = record {
  name = r.metadata.name;
  namespace = namespace_of r;
  hard_cpu = get_key_of (codes "cpu") hard >>= quota_cpu read;
  hard_memory = get_key_of (codes "memory") hard >>= quota_mem;
  hard_pods = get_key_of (codes "pods") hard >>= quota_count;
  hard_services = get_key_of (codes "services") hard >>= quota_count;
  hard_configmaps = get_key_of (codes "configmaps") hard >>= quota_count;
  hard_secrets = get_key_of (codes "secrets") hard >>= quota_count;
}

abbrev limit_note {ℓ} : {A : Type ℓ} → Text → Option A → (A → Text) → List Text
limit_note label none show = []
limit_note label (some a) show = (label ++ show a) ∷ []

unfoldable pub apply_quota : Readers → Arm
unfolding needs done
apply_quota read w r = needs r.spec no_spec w (λ spec.
    let quota = quota_from read r (unwrap_or (get_key_of (codes "hard") spec) spec) in
    let limits =
      limit_note (codes "cpu: ") quota.hard_cpu read.show_f32
      ++ limit_note (codes "mem: ") quota.hard_memory (λ m. decimal m ++ codes "Mi")
      ++ limit_note (codes "pods: ") quota.hard_pods decimal
      ++ limit_note (codes "svc: ") quota.hard_services decimal in
    done
      (codes "resourcequota/"
        ++ r.metadata.name
        ++ codes " applied (ns="
        ++ namespace_of r
        ++ codes ", "
        ++ join (codes ", ") limits
        ++ codes ")")
      (record w {
        resource_quotas =
            insert (namespace_of r ++ codes "/" ++ r.metadata.name) quota w.resource_quotas;
      }))

unfoldable pub first_limit : Yaml → Option Yaml
first_limit spec = get_key_of (codes "limits") spec >>= as_sequence >>= head
  where
    head : List Yaml → Option Yaml
    head [] = none
    head (v ∷ vs) = some v

unfoldable pub limit_at : Yaml → Text → Text → Option Text
limit_at spec section key = first_limit spec >>= get_key_of section >>= get_key_of key >>= as_text

unfoldable pub apply_limit_range : Arm
unfolding needs done
apply_limit_range w r = needs r.spec no_spec w (λ spec.
    let namespace = namespace_of r in
    done (codes "limitrange/" ++ r.metadata.name ++ codes " set for namespace " ++ namespace)
      (record w {
        limit_ranges =
            insert namespace
              (record {
                name = r.metadata.name;
                namespace = namespace;
                default_cpu = limit_at spec (codes "default") (codes "cpu");
                default_mem = limit_at spec (codes "default") (codes "memory");
                request_cpu = limit_at spec (codes "defaultRequest") (codes "cpu");
                request_mem = limit_at spec (codes "defaultRequest") (codes "memory");
              })
              w.limit_ranges;
      }))
