-- ===== src/Apply/Workloads.antt =====
-- src/reconcile.rs, `DesiredWorld::apply`: deployments and the kinds that are stored as deployments
-- or run one container. src/spec.rs: `as_deployment`. A hostPath that `validate_path` refuses is
-- left out of the volumes.
use royak.World.Services.{StoredLimitRange}
use royak.World.Workloads.{StoredContainer, ResourceLimits, StoredDeployment, DeployStrategy, F32}
pub mod Containers
pub mod Rollout
mod Tests
use royak.Prelude.{
  ltb, if◌then◌else◌, unwrap_or, ◌>>=◌, decimal, length, Map, lookup, insert, Text, codes, text_eq,
  is_empty, contains, ℕ, ◌+◌, ◌-◌, ◌*◌, ◌/◌, ◌%◌, ◌^◌, false, not, ◌&&◌, Option, none, some, List,
  [], ◌∷◌, ◌++◌, map,
}
use royak.Apply.Base.{
  Arm, Readers, Outcome, Applied, failed, namespace_of, no_spec, ends_with, trim_end_matches,
  parse_u64, insert_all,
}
use royak.Apply.Workloads.Containers.{
  volume_entries, volume_dirs, stored_container, init_container, claim_templates,
}
use royak.World.Manifest.{Resource, DeploymentSpec, ContainerSpec, StrategySpec, ResourceSpec}
use royak.World.State.{DesiredWorld}

module _ (read : Readers) where
  unfoldable pub as_deployment : Resource → Option DeploymentSpec
  as_deployment r =
      if text_eq r.kind (codes "Pod")
      then (r.spec >>= read.pod_spec >>= λ pod. some (record {
        replicas = some 1;
        template = pod;
        strategy = none;
        volume_claim_templates = none;
      }))
      else if contains valid r.kind
      then (r.spec >>= read.deployment_spec)
      else none
    where
      valid : List Text
      valid =
          codes "Deployment"
          ∷ codes "ReplicaSet"
          ∷ codes "StatefulSet"
          ∷ codes "DaemonSet"
          ∷ codes "Job"
          ∷ codes "CronJob"
          ∷ []

  unfoldable pub parse_cpu : Text → F32
  parse_cpu s =
      if ends_with s (codes "m")
      then read.per_thousand (unwrap_or (read.parse_f32 (trim_end_matches s (codes "m"))) 0)
      else unwrap_or (read.parse_f32 s) 0

unfoldable pub parse_size : Text → Text → ℕ → ℕ
parse_size s suffix unit = (unwrap_or (parse_u64 (trim_end_matches s suffix)) 0 * unit) % 2 ^ 64

unfoldable pub parse_mem_range : Text → ℕ
unfolding parse_size
parse_mem_range s =
    if ends_with s (codes "Gi")
    then parse_size s (codes "Gi") 1024
    else if ends_with s (codes "Mi")
    then parse_size s (codes "Mi") 1
    else unwrap_or (parse_u64 s) 0

unfoldable pub parse_mem : Text → ℕ
unfolding parse_size
parse_mem s =
    if ends_with s (codes "Gi")
    then parse_size s (codes "Gi") 1024
    else if ends_with s (codes "Mi")
    then parse_size s (codes "Mi") 1
    else if ends_with s (codes "G")
    then parse_size s (codes "G") 1024
    else if ends_with s (codes "M")
    then parse_size s (codes "M") 1
    else unwrap_or (parse_u64 s) 0

unfoldable pub strategy_of : StrategySpec → DeployStrategy
strategy_of s =
    if text_eq s.strategy_type (codes "Canary")
    then DeployStrategy.canary (unwrap_or s.weight 10) (
        record { weight = unwrap_or s.weight 10; pause_seconds = 30 }
        ∷ record { weight = 50; pause_seconds = 60 }
        ∷ record { weight = 100; pause_seconds = 0 }
        ∷ [])
    else if text_eq s.strategy_type (codes "BlueGreen")
    then DeployStrategy.blue_green (unwrap_or s.active (codes "green"))
    else DeployStrategy.rolling_update (unwrap_or s.max_surge 1) (unwrap_or s.max_unavailable 0)

-- The image of the running deployment, where applying replaces it by another one.
unfoldable pub rolling_from : Map StoredDeployment → Text → Text → Option Text
rolling_from deployments name new_image = elim (lookup name deployments) [
  | none ↦ none
  | some existing ↦
      if not (text_eq existing.image new_image) && not (is_empty existing.image)
      then some existing.image
      else none
]

unfoldable pub kind_label : Text → Text
kind_label kind =
    if text_eq kind (codes "Pod")
    then codes "pod (as 1-replica deployment)"
    else if text_eq kind (codes "ReplicaSet")
    then codes "replicaset (as deployment)"
    else if text_eq kind (codes "StatefulSet")
    then codes "statefulset (ordered, per-ordinal volumes)"
    else codes "deployment"

abbrev arrow : Text
arrow = 226 ∷ 134 ∷ 146 ∷ []

-- ` ({n} containers)` and `, {n} init`
unfoldable pub suffixes : ℕ → ℕ → Text
suffixes container_count init_count =
    (if ltb 1 container_count
      then codes " (" ++ decimal container_count ++ codes " containers)"
      else [])
    ++ (if ltb 0 init_count then codes ", " ++ decimal init_count ++ codes " init" else [])

unfoldable pub entry_of : Option (Map Text) → Text → Option Text
entry_of none k = none
entry_of (some m) k = lookup k m

module _ (read : Readers) where
  unfoldable pub limits_from : ResourceSpec → ResourceLimits
  limits_from r = record {
    cpu_request = entry_of r.requests (codes "cpu") >>= λ s. some (parse_cpu read s);
    cpu_limit = entry_of r.limits (codes "cpu") >>= λ s. some (parse_cpu read s);
    mem_request = entry_of r.requests (codes "memory") >>= λ s. some (parse_mem s);
    mem_limit = entry_of r.limits (codes "memory") >>= λ s. some (parse_mem s);
  }

  -- The defaults of the namespace.
  unfoldable pub limits_default : StoredLimitRange → ResourceLimits
  limits_default lr = record {
    cpu_request = lr.request_cpu >>= λ s. some (parse_cpu read s);
    cpu_limit = lr.default_cpu >>= λ s. some (parse_cpu read s);
    mem_request = lr.request_mem >>= λ s. some (parse_mem_range s);
    mem_limit = lr.default_mem >>= λ s. some (parse_mem_range s);
  }

  unfoldable pub limits_for : DesiredWorld → Text → List ContainerSpec → Option ResourceLimits
  limits_for w namespace containers = elim (own containers) [
    | some limits ↦ some limits
    | none ↦ lookup namespace w.limit_ranges >>= λ lr. some (limits_default lr)
  ]
    where
      own : List ContainerSpec → Option ResourceLimits
      own [] = none
      own (c ∷ cs) = c.resources >>= λ r. some (limits_from r)

  -- The world with the deployment stored, and the rollout that a new image starts.
  unfoldable pub store_deployment :
      DesiredWorld → Resource → DeploymentSpec → StoredContainer → List StoredContainer → Applied
  store_deployment w r dep first rest =
      let name = r.metadata.name in
      let containers = first ∷ rest in
      let inits = map init_container (unwrap_or dep.template.init_containers []) in
      let replicas = unwrap_or dep.replicas 1 in
      let stored : StoredDeployment = record {
        name = name;
        namespace = namespace_of r;
        replicas = replicas;
        init_containers = inits;
        containers = containers;
        image = first.image;
        previous_image = lookup name w.deployments >>= λ d. some d.image;
        command = first.command;
        env = first.env;
        resource_limits = limits_for w (namespace_of r) dep.template.containers;
        strategy = dep.strategy >>= λ s. some (strategy_of s);
        pause_after_idle = none;
        paused = false;
        idle_since = none;
        stateful = text_eq r.kind (codes "StatefulSet");
        owner_ref = none;
      } in
      let after = record w { deployments = insert name stored w.deployments } in
      let notes = suffixes (length containers) (length inits) in
      let dirs = volume_dirs name (unwrap_or dep.template.volumes []) in
      elim (rolling_from w.deployments name first.image) [
        | some old_image ↦ record {
          outcome = Outcome.ok (
              codes "deployment/"
              ++ name
              ++ codes " rolling update"
              ++ notes
              ++ codes ": "
              ++ old_image
              ++ codes " "
              ++ arrow
              ++ codes " "
              ++ first.image);
          world = record after {
            pending_rollouts =
                insert name
                  (record {
                    old_image = old_image;
                    new_image = first.image;
                    total_replicas = replicas;
                    old_pods = [];
                    new_pods_created = 0;
                  })
                  w.pending_rollouts;
          };
          effects = dirs;
        }
        | none ↦ record {
          outcome =
              Outcome.ok (kind_label r.kind ++ codes "/" ++ name ++ codes " applied" ++ notes);
          world = after;
          effects = dirs;
        }
      ]

  unfoldable pub store_containers :
      DesiredWorld → Resource → DeploymentSpec → List StoredContainer → Applied
  store_containers w r dep [] = record {
    outcome = Outcome.err (codes "Deployment has no containers");
    world = w;
    effects = volume_dirs r.metadata.name (unwrap_or dep.template.volumes []);
  }
  store_containers w r dep (first ∷ rest) = store_deployment w r dep first rest

  unfoldable pub apply_deployment : Arm
  unfolding failed
  apply_deployment w r = elim (as_deployment read r) [
    | none ↦ elim r.spec [
      | none ↦ failed no_spec w
      | some sv ↦ failed (codes "Deployment parse: " ++ read.deployment_error sv) w
    ]
    | some dep ↦
        let volumes =
          insert_all (claim_templates r.kind dep) (
            insert_all (volume_entries w r.metadata.name (unwrap_or dep.template.volumes [])) []) in
        store_containers w r dep (map (stored_container volumes) dep.template.containers)
  ]
