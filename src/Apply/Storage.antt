-- ===== src/Apply/Storage.antt =====
-- src/reconcile.rs, `DesiredWorld::apply`: storage classes, volumes and claims.
use royak.World.Manifest.{Resource}
pub mod Binding
pub mod Order
use royak.World.Services.{StoredStorageClass, StoredPv, PvStatus}
use royak.Prelude.{
  if◌then◌else◌, is_some, unwrap_or, ◌>>=◌, decimal, Map, lookup, insert, modify, keys, Text, codes,
  text_eq, ◌+◌, ◌%◌, ◌^◌, Bool, true, false, ◌&&◌, Option, none, some, List, [], ◌∷◌, ◌++◌,
}
use royak.Apply.Base.{Applied, Arm, Effect, Outcome, done, needs, namespace_of, no_spec}
use royak.World.Yaml.{Yaml, text_at, get_at_path, as_sequence, as_text}
use royak.World.State.{DesiredWorld}

unfoldable pub apply_storage_class : Arm
unfolding needs done
apply_storage_class w r = needs r.spec no_spec w (λ spec.
    let name = r.metadata.name in
    let provisioner = text_at (codes "provisioner" ∷ []) (codes "royak/host-path") spec in
    let host_path_prefix =
      text_at (codes "hostPathPrefix" ∷ []) (codes "/data/royak/volumes") spec in
    let reclaim_policy = text_at (codes "reclaimPolicy" ∷ []) (codes "Delete") spec in
    done
      (codes "storageclass/"
        ++ name
        ++ codes " created (provisioner: "
        ++ provisioner
        ++ codes ", path: "
        ++ host_path_prefix
        ++ codes ", reclaim: "
        ++ reclaim_policy
        ++ codes ")")
      (record w {
        storage_classes =
            insert name
              (record {
                name = name;
                provisioner = provisioner;
                host_path_prefix = host_path_prefix;
                reclaim_policy = reclaim_policy;
                provisioned_count = 0;
              })
              w.storage_classes;
      }))

-- `spec.accessModes[0]`
unfoldable pub access_mode_of : Yaml → Text
access_mode_of spec =
    unwrap_or (get_at_path (codes "accessModes" ∷ []) spec >>= as_sequence >>= first >>= as_text)
      (codes "ReadWriteOnce")
  where
    first : List Yaml → Option Yaml
    first [] = none
    first (v ∷ vs) = some v

unfoldable pub apply_volume : Arm
unfolding needs
apply_volume w r = needs r.spec no_spec w (λ spec.
    let name = r.metadata.name in
    let capacity = text_at (codes "capacity" ∷ codes "storage" ∷ []) (codes "1Gi") spec in
    let storage_class = text_at (codes "storageClassName" ∷ []) (codes "local") spec in
    let host_path = text_at (codes "hostPath" ∷ codes "path" ∷ []) (codes "/data") spec in
    record {
      outcome = Outcome.ok (
          codes "pv/"
          ++ name
          ++ codes " created ("
          ++ capacity
          ++ codes ", class="
          ++ storage_class
          ++ codes ")");
      world = record w {
        pvs =
            insert name
              (record {
                name = name;
                capacity = capacity;
                storage_class = storage_class;
                host_path = host_path;
                access_mode = access_mode_of spec;
                status = PvStatus.available;
                bound_to = none;
              })
              w.pvs;
      };
      effects = Effect.create_dir host_path ∷ [];
    })

abbrev pub is_available : PvStatus → Bool
is_available PvStatus.available = true
is_available PvStatus.bound = false
is_available PvStatus.released = false

abbrev pub fits : Text → Text → StoredPv → Bool
fits storage_class access_mode pv =
    is_available pv.status
    && text_eq pv.storage_class storage_class
    && text_eq pv.access_mode access_mode

abbrev pub bind_to : Text → StoredPv → StoredPv
bind_to claim pv = record pv { status = PvStatus.bound; bound_to = some claim }

-- The loop over the volumes, which ends at the first that fits.
unfoldable pub first_fit : Text → Text → Map StoredPv → List Text → Option Text
first_fit storage_class access_mode pvs [] = none
first_fit storage_class access_mode pvs (k ∷ ks) =
    let rest = first_fit storage_class access_mode pvs ks in
    elim (lookup k pvs) [
      | none ↦ rest
      | some pv ↦ if fits storage_class access_mode pv then some k else rest
    ]

abbrev pub provisioned : StoredStorageClass → StoredStorageClass
provisioned sc = record sc { provisioned_count = (sc.provisioned_count + 1) % 2 ^ 32 }

unfoldable pub auto_name : StoredStorageClass → Text
auto_name sc = codes "pv-auto-" ++ sc.name ++ codes "-" ++ decimal sc.provisioned_count

abbrev pub host_path_provisioner : Text
host_path_provisioner = codes "royak/host-path"

-- Dynamic provisioning: a volume of the storage class, if the class is there.
unfoldable pub provision :
    DesiredWorld
    → Text
    → Text
    → Text
    → Text
    → Text
    → Option StoredStorageClass
    → Option Text × DesiredWorld × List Effect
unfolding auto_name
provision w claim namespace storage_class requested access_mode none = (none, w, [])
provision w claim namespace storage_class requested access_mode (some sc) =
    let host_path = sc.host_path_prefix ++ codes "/" ++ namespace ++ codes "/" ++ claim in
    let pv : StoredPv = record {
      name = auto_name sc;
      capacity = requested;
      storage_class = sc.name;
      host_path = host_path;
      access_mode = access_mode;
      status = PvStatus.bound;
      bound_to = some claim;
    } in
    (
      some (auto_name sc),
      record w {
        pvs = insert (auto_name sc) pv w.pvs;
        storage_classes = modify storage_class provisioned w.storage_classes;
      },
      if text_eq sc.provisioner host_path_provisioner then Effect.create_dir host_path ∷ [] else [],
    )

-- The volume that a claim gets: one that fits, or a new one.
unfoldable pub bind_claim :
    DesiredWorld
    → Text
    → Text
    → Text
    → Text
    → Text
    → Option Text
    → Option Text × DesiredWorld × List Effect
unfolding provision
bind_claim w claim namespace storage_class requested access_mode (some pv_name) =
    (some pv_name, record w { pvs = modify pv_name (bind_to claim) w.pvs }, [])
bind_claim w claim namespace storage_class requested access_mode none =
    provision w claim namespace storage_class requested access_mode
      (lookup storage_class w.storage_classes)

unfoldable pub volume_note : Option Text → Text
volume_note none = []
volume_note (some pv_name) = codes " " ++ (226 ∷ 134 ∷ 146 ∷ []) ++ codes " pv/" ++ pv_name

unfoldable pub store_claim : DesiredWorld → Resource → Yaml → Applied
unfolding bind_claim volume_note
store_claim w r spec =
    let name = r.metadata.name in
    let storage_class = text_at (codes "storageClassName" ∷ []) (codes "local") spec in
    let requested =
      text_at (codes "resources" ∷ codes "requests" ∷ codes "storage" ∷ []) (codes "1Gi") spec in
    let access_mode = access_mode_of spec in
    let got =
      bind_claim w name (namespace_of r) storage_class requested access_mode
        (first_fit storage_class access_mode w.pvs (keys w.pvs)) in
    record {
      outcome = Outcome.ok (
          codes "pvc/"
          ++ name
          ++ codes " "
          ++ (if is_some got.0 then codes "Bound" else codes "Pending")
          ++ codes " ("
          ++ requested
          ++ codes ")"
          ++ volume_note got.0);
      world = record got.1 {
        pvcs =
            insert name
              (record {
                name = name;
                namespace = namespace_of r;
                storage_class = storage_class;
                requested = requested;
                access_mode = access_mode;
                bound_pv = got.0;
              })
              w.pvcs;
      };
      effects = got.2;
    }

unfoldable pub apply_claim : Arm
unfolding needs
apply_claim w r = needs r.spec no_spec w (store_claim w r)
