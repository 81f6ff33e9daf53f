-- ===== src/Deletion/Cascade.antt =====
-- Deleting a custom resource deletes the deployments that it owns, and deleting a claim frees the
-- volume that it was bound to.
use royak.Deletion.{
  is_owned_by, deployments_owned_by, delete_custom_resource, deletion_of, values, delete_resource,
  deployment_names, remove_all,
}
use royak.World.Services.{StoredPv}
use royak.World.Workloads.{StoredDeployment}
use royak.Prelude.{
  if◌then◌else◌, ◌>>=◌, filter, Map, lookup, remove, contains_key, lookup-remove, Text, codes,
  text_eq, text_eq_iff, contains, ◌≡◌, refl, Bool, true, false, none, some, List, [], ◌∷◌, arith,
}
use royak.Prelude.{values}
use royak.World.State.{DesiredWorld}

-- Every deployment is stored once, under its own name, as `apply` stores it.
unfoldable pub IsNamed : Map StoredDeployment → Type 0
IsNamed [] = Unit
IsNamed ((k, d) ∷ m) = (d.name ≡ k) × (lookup k m ≡ none) × IsNamed m

lookup-remove_all {ℓ} :
    {V : Type ℓ} (ks : List Text) (m : Map V) (j : Text)
    → lookup j (remove_all ks m) ≡ (if contains ks j then none else lookup j m)
unfolding remove_all contains
lookup-remove_all [] m j = refl
lookup-remove_all (k ∷ ks) m j =
    ground (arith, lookup-remove_all ks (remove k m) j, lookup-remove k j m)

module _ (cr_name : Text) where
  contains-deployment_names :
      (m : Map StoredDeployment) (j : Text)
      → IsNamed m
      → contains (deployment_names (filter (is_owned_by cr_name) (values m))) j
        ≡ elim (lookup j m) [ none ↦ false | some d ↦ is_owned_by cr_name d ]
  unfolding IsNamed deployment_names filter values contains lookup
  contains-deployment_names [] j h = refl
  contains-deployment_names ((k, d) ∷ m) j h =
      let named : d.name ≡ k = h.0 in
      let fresh : lookup k m ≡ none = h.1 in
      ground (arith, contains-deployment_names m j h.2, text_eq_iff k j, text_eq_iff d.name j)

-- Where every deployment is stored once and under its own name, deleting a custom resource that is
-- there deletes exactly the deployments that it owns: every other one is found as before.
pub delete_resource-cascade :
    (w : DesiredWorld) (name j : Text)
    → IsNamed w.deployments
    → contains_key name w.custom_resources ≡ true
    → lookup j (delete_resource w (codes "customresources") name).world.deployments
      ≡ (lookup j w.deployments >>= λ d. if is_owned_by name d then none else some d)
unfolding delete_resource deletion_of delete_custom_resource deployments_owned_by text_eq
delete_resource-cascade w name j h e = ground (
  arith,
  lookup-remove_all (deployments_owned_by w name) w.deployments j,
  contains-deployment_names name w.deployments j h,
)

unfoldable pub reclaims : DesiredWorld → StoredPv → Bool
reclaims w pv = elim (lookup pv.storage_class w.storage_classes) [
  | none ↦ false
  | some sc ↦ text_eq sc.reclaim_policy (codes "Delete")
]
