-- ===== src/Deletion.antt =====
-- src/reconcile.rs, deleting a stored resource: `DesiredWorld::delete`,
-- `DesiredWorld::delete_resource` and `deployments_owned_by`. The directory that the deletion of a
-- claim clears (`remove_dir_all`, whose result the source drops) is an output.
use royak.World.Services.{PvStatus, StoredPv}
use royak.World.Workloads.{StoredDeployment}
pub mod Cascade
pub mod Laws
mod Tests
use royak.Prelude.{
  values, if◌then◌else◌, filter, Map, lookup, remove, modify, contains_key, Text, codes, text_eq,
  Bool, true, false, ◌||◌, none, some, List, [], ◌∷◌,
}
use royak.World.State.{DesiredWorld}

pub record Deletion : Type 0 where
  -- What the source returns.
  pub existed : Bool
  pub world : DesiredWorld
  -- The directories that are removed.
  pub cleared : List Text

abbrev pub is_owned_by : Text → StoredDeployment → Bool
is_owned_by cr_name d = elim d.owner_ref [ none ↦ false | some owner ↦ text_eq owner cr_name ]

unfoldable pub deployment_names : List StoredDeployment → List Text
deployment_names [] = []
deployment_names (d ∷ ds) = d.name ∷ deployment_names ds

unfoldable pub deployments_owned_by : DesiredWorld → Text → List Text
deployments_owned_by desired cr_name =
    deployment_names (filter (is_owned_by cr_name) (values desired.deployments))

unfoldable pub remove_all {ℓ} : {V : Type ℓ} → List Text → Map V → Map V
remove_all [] m = m
remove_all (k ∷ ks) m = remove_all ks (remove k m)

abbrev pub release_pv : StoredPv → StoredPv
release_pv pv = record pv { status = PvStatus.released; bound_to = none }

-- The volume that a deleted claim was bound to: it is released, and removed with its data where
-- its storage class says so.
unfoldable pub release_volume : DesiredWorld → Text → DesiredWorld × List Text
release_volume w pv_name = elim (lookup pv_name w.pvs) [
  | none ↦ (w, [])
  | some pv ↦
      let released = modify pv_name release_pv w.pvs in
      elim (lookup pv.storage_class w.storage_classes) [
        | none ↦ (record w { pvs = released }, [])
        | some sc ↦
            if text_eq sc.reclaim_policy (codes "Delete")
            then (record w { pvs = remove pv_name released }, pv.host_path ∷ [])
            else (record w { pvs = released }, [])
      ]
]

unfoldable pub delete_pvc : DesiredWorld → Text → Deletion
delete_pvc w name = elim (lookup name w.pvcs) [
  | none ↦ record { existed = false; world = w; cleared = [] }
  | some pvc ↦
      let removed = record w { pvcs = remove name w.pvcs } in
      elim pvc.bound_pv [
        | none ↦ record { existed = true; world = removed; cleared = [] }
        | some pv_name ↦
            let freed = release_volume removed pv_name in
            record { existed = true; world = freed.0; cleared = freed.1 }
      ]
]

unfoldable pub delete_custom_resource : DesiredWorld → Text → Deletion
delete_custom_resource w name =
    let removed = record w { custom_resources = remove name w.custom_resources } in
    if contains_key name w.custom_resources
    then record {
      existed = true;
      world = record removed {
        deployments = remove_all (deployments_owned_by removed name) w.deployments;
      };
      cleared = [];
    }
    else record { existed = false; world = removed; cleared = [] }

-- `self.m.remove(name).is_some()` for a map `m` of the world.
abbrev pub removal {ℓ} : {V : Type ℓ} → Map V → Text → DesiredWorld → Deletion
removal m name w = record { existed = contains_key name m; world = w; cleared = [] }

unfoldable pub delete : DesiredWorld → Text → Bool × DesiredWorld
delete w name =
    (contains_key name w.deployments, record w { deployments = remove name w.deployments })

-- The arm of the match on the resource type.
unfoldable pub deletion_of : Text → DesiredWorld → Text → Deletion
deletion_of resource_type =
    let is : Text → Bool = text_eq resource_type in
    if is (codes "deployments")
    then (λ w name.
        removal w.deployments name (record w { deployments = remove name w.deployments }))
    else if is (codes "daemonsets")
    then (λ w name. removal w.daemonsets name (record w { daemonsets = remove name w.daemonsets }))
    else if is (codes "jobs")
    then (λ w name. removal w.jobs name (record w { jobs = remove name w.jobs }))
    else if is (codes "cronjobs")
    then (λ w name. removal w.cronjobs name (record w { cronjobs = remove name w.cronjobs }))
    else if is (codes "hpa") || is (codes "horizontalpodautoscalers")
    then (λ w name. removal w.hpas name (record w { hpas = remove name w.hpas }))
    else if is (codes "ingresses")
    then (λ w name. removal w.ingresses name (record w { ingresses = remove name w.ingresses }))
    else if is (codes "persistentvolumes") || is (codes "pvs")
    then (λ w name. removal w.pvs name (record w { pvs = remove name w.pvs }))
    else if is (codes "persistentvolumeclaims") || is (codes "pvcs")
    then delete_pvc
    else if is (codes "functions")
    then (λ w name. removal w.functions name (record w { functions = remove name w.functions }))
    else if is (codes "pipelines")
    then (λ w name. removal w.pipelines name (record w { pipelines = remove name w.pipelines }))
    else if is (codes "repositories")
    then (λ w name.
        removal w.repositories name (record w { repositories = remove name w.repositories }))
    else if is (codes "guards")
    then (λ w name. removal w.guards name (record w { guards = remove name w.guards }))
    else if is (codes "operators")
    then (λ w name. removal w.operators name (record w { operators = remove name w.operators }))
    else if is (codes "customresources")
    then delete_custom_resource
    else if is (codes "rbacroles")
    then (λ w name. removal w.rbac_roles name (record w { rbac_roles = remove name w.rbac_roles }))
    else (λ w name. record { existed = false; world = w; cleared = [] })

unfoldable pub delete_resource : DesiredWorld → Text → Text → Deletion
delete_resource w resource_type name = deletion_of resource_type w name
