-- ===== src/Deletion/Tests.antt =====
-- Deletions in a small world.
use royak.Prelude.{lookup, codes, text_eq, ◌≡◌, refl, none, some, [], ◌∷◌}
use royak.Deletion.Cascade.{IsNamed, delete_resource-cascade}
use royak.Deletion.{delete_resource}
use royak.Samples.{plain_deployment}
use royak.World.Json.{Json}
use royak.World.State.{DesiredWorld, new_world}
use royak.World.Workloads.{StoredDeployment}
use royak.World.Services.{StoredPv, StoredPvc, StoredStorageClass, PvStatus}
use royak.World.Cluster.{CustomResource, CrStatus}

abbrev pv_data : StoredPv
pv_data = record {
  name = codes "data";
  capacity = codes "1Gi";
  storage_class = codes "fast";
  host_path = codes "/var/data";
  access_mode = codes "ReadWriteOnce";
  status = PvStatus.bound;
  bound_to = some (codes "claim");
}

abbrev claim : StoredPvc
claim = record {
  name = codes "claim";
  namespace = codes "default";
  storage_class = codes "fast";
  requested = codes "1Gi";
  access_mode = codes "ReadWriteOnce";
  bound_pv = some (codes "data");
}

abbrev fast : StoredStorageClass
fast = record {
  name = codes "fast";
  provisioner = codes "local";
  host_path_prefix = codes "/var";
  reclaim_policy = codes "Delete";
  provisioned_count = 1;
}

abbrev stored : DesiredWorld
stored = record new_world {
  pvs = (codes "data", pv_data) ∷ [];
  pvcs = (codes "claim", claim) ∷ [];
  storage_classes = (codes "fast", fast) ∷ [];
}

abbrev shop : CustomResource
shop = record {
  name = codes "shop";
  kind = codes "Shop";
  namespace = codes "default";
  spec = Json.null;
  status = CrStatus.running;
}

abbrev owned : StoredDeployment
owned = record (plain_deployment (codes "shop-db") 1) { owner_ref = some (codes "shop") }

abbrev cr_world : DesiredWorld
cr_world = record new_world {
  deployments = (codes "shop-db", owned) ∷ (codes "web", plain_deployment (codes "web") 2) ∷ [];
  custom_resources = (codes "shop", shop) ∷ [];
}

delete_resource-cascade_example :
    lookup
      (codes "shop-db")
      (delete_resource cr_world (codes "customresources") (codes "shop")).world.deployments
    ≡ none
unfolding lookup text_eq IsNamed
delete_resource-cascade_example =
    delete_resource-cascade cr_world (codes "shop") (codes "shop-db") (refl, refl, (refl, refl, tt))
      refl
