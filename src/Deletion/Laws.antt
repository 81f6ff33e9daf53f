-- ===== src/Deletion/Laws.antt =====
-- Deleting a resource: what is gone afterwards, and what stays.
use royak.Prelude.{if◌then◌else◌, contains_key, Text, codes, text_eq, ◌≡◌, Bool, false, ◌||◌}
use royak.Deletion.{Deletion}
use royak.World.State.{DesiredWorld}

-- Whether a resource is stored, by the name of its type as a request writes it. There are no resources
-- of a type that is not listed.
unfoldable pub is_stored : Text → DesiredWorld → Text → Bool
is_stored resource_type =
    let is : Text → Bool = text_eq resource_type in
    if is (codes "deployments")
    then (λ w name. contains_key name w.deployments)
    else if is (codes "daemonsets")
    then (λ w name. contains_key name w.daemonsets)
    else if is (codes "jobs")
    then (λ w name. contains_key name w.jobs)
    else if is (codes "cronjobs")
    then (λ w name. contains_key name w.cronjobs)
    else if is (codes "hpa") || is (codes "horizontalpodautoscalers")
    then (λ w name. contains_key name w.hpas)
    else if is (codes "ingresses")
    then (λ w name. contains_key name w.ingresses)
    else if is (codes "persistentvolumes") || is (codes "pvs")
    then (λ w name. contains_key name w.pvs)
    else if is (codes "persistentvolumeclaims") || is (codes "pvcs")
    then (λ w name. contains_key name w.pvcs)
    else if is (codes "functions")
    then (λ w name. contains_key name w.functions)
    else if is (codes "pipelines")
    then (λ w name. contains_key name w.pipelines)
    else if is (codes "repositories")
    then (λ w name. contains_key name w.repositories)
    else if is (codes "guards")
    then (λ w name. contains_key name w.guards)
    else if is (codes "operators")
    then (λ w name. contains_key name w.operators)
    else if is (codes "customresources")
    then (λ w name. contains_key name w.custom_resources)
    else if is (codes "rbacroles")
    then (λ w name. contains_key name w.rbac_roles)
    else (λ w name. false)

-- A deletion of what `stored` tells of: it says whether the resource was there, afterwards the
-- resource is not, and every other one is there as before.
record Deletes (stored : DesiredWorld → Text → Bool) (h : DesiredWorld → Text → Deletion)
    : Type 0 where
  found : (w : DesiredWorld) (name : Text) → (h w name).existed ≡ stored w name
  left :
      (w : DesiredWorld) (name other : Text)
      → stored (h w name).world other ≡ (if text_eq name other then false else stored w other)
