-- ===== src/Apply/Tests.antt =====
-- Manifests that are applied to small worlds.
use royak.Samples.{no_readers}
use royak.Prelude.{
  Any, lookup, Text, codes, text_eq, contains, text_ne, ◌≢◌, ◌≡◌, refl, ◌↔◌, true, none, some, [],
  ◌∷◌, ◌++◌,
}
use royak.Apply.Base.{Readers, Applied, Outcome, failed, done, needs}
use royak.Apply.Access.{apply_role_binding, subjects_of}
use royak.Apply.Access.Binding.{check_rbac-apply_role_binding}
use royak.Apply.Settings.{apply_namespace}
use royak.Apply.Storage.{apply_claim, access_mode_of}
use royak.Apply.Storage.Order.{IsOnOffer, bound_volume, apply_claim-order}
use royak.Apply.Storage.Binding.{AreBound, apply_claim-AreBound}
use royak.Apply.Dispatch.{arm_of, apply}
use royak.Apply.Dispatch.Atomic.{apply-keeps_on_error}
use royak.Apply.Dispatch.Settled.{apply-again}
use royak.Rbac.{check_rbac}
use royak.Rbac.Laws.{Matches}
use royak.World.Yaml.{
  text_at, get_at_path, Yaml, Values, Pairs, get_key_of, get_pair, as_mapping, as_sequence, as_text,
  to_pairs, to_yamls,
}
use royak.World.Manifest.{Resource}
use royak.World.Cluster.{RbacRole}
use royak.World.Services.{StoredStorageClass, StoredPv, PvStatus}
use royak.World.State.{DesiredWorld, new_world}

abbrev manifest : Text → Text → Resource
manifest kind name = record {
  kind = kind;
  metadata = record { name = name; namespace = none };
  spec = none;
  values = none;
  string_data = none;
  rules = none;
  subjects = none;
  role_ref = none;
}

abbrev named : Text → Yaml
named name = Yaml.mapping (Pairs.pair (Yaml.str (codes "name")) (Yaml.str name) Pairs.end)

abbrev binding : Resource
binding = record (manifest (codes "RoleBinding") (codes "bob-reads")) {
  role_ref = some (named (codes "reader"));
  subjects = some (Yaml.sequence (Values.cons (named (codes "bob")) Values.nil));
}

abbrev no_role : Text
no_role =
    codes "roleRef 'reader' not found " ++ (226 ∷ 128 ∷ 148 ∷ []) ++ codes " apply the Role first"

abbrev refused : Applied
refused = record { outcome = Outcome.err no_role; world = new_world; effects = [] }

apply-keeps_on_error_example : refused.world ≡ new_world
unfolding apply arm_of apply_role_binding needs failed get_key_of get_pair as_mapping as_text
    to_pairs lookup text_eq new_world
apply-keeps_on_error_example =
    apply-keeps_on_error no_readers (λ t. t) new_world binding refused no_role refl refl

abbrev team : Resource
team = manifest (codes "Namespace") (codes "team")

abbrev team_world : DesiredWorld
team_world = record new_world { namespaces = codes "default" ∷ codes "team" ∷ [] }

abbrev once : Applied
once = record {
  outcome = Outcome.ok (codes "namespace/team created");
  world = team_world;
  effects = [];
}

abbrev twice : Applied
twice = record {
  outcome = Outcome.ok (codes "namespace/team created");
  world = team_world;
  effects = [];
}

apply-again_example : twice.world ≡ once.world
unfolding apply arm_of apply_namespace done text_eq contains new_world
apply-again_example =
    apply-again no_readers (λ t. t) new_world team once twice refl refl refl refl refl

abbrev fast : StoredStorageClass
fast = record {
  name = codes "fast";
  provisioner = codes "royak/host-path";
  host_path_prefix = codes "/data";
  reclaim_policy = codes "Delete";
  provisioned_count = 0;
}

abbrev storage_world : DesiredWorld
storage_world = record new_world { storage_classes = (codes "fast", fast) ∷ [] }

abbrev claim : Resource
claim = record (manifest (codes "PersistentVolumeClaim") (codes "logs")) {
  spec = some (
      Yaml.mapping
        (Pairs.pair (Yaml.str (codes "storageClassName")) (Yaml.str (codes "fast")) Pairs.end));
}

storage_world-AreBound : AreBound storage_world
unfolding lookup new_world
storage_world-AreBound = record { holds = λ c p d found bound. absurd (cc found) }

apply_claim-AreBound_example : AreBound (apply_claim storage_world claim).world
unfolding lookup new_world
apply_claim-AreBound_example =
    apply_claim-AreBound storage_world claim storage_world-AreBound (λ k sc h. refl)

abbrev reader : RbacRole
reader = record {
  name = codes "reader";
  rules =
      record {
        resources = codes "pods" ∷ [];
        verbs = codes "get" ∷ [];
        namespaces = codes "*" ∷ [];
      }
      ∷ [];
}

abbrev role_world : DesiredWorld
role_world = record new_world { rbac_roles = (codes "reader", reader) ∷ [] }

check_rbac-apply_role_binding_example :
    (check_rbac
        (apply_role_binding role_world binding).world
        (codes "bob")
        (codes "pods")
        (codes "get")
        (codes "default")
      ≡ true)
    ↔ Any (Matches (codes "pods") (codes "get") (codes "default")) reader.rules
unfolding lookup new_world text_eq get_key_of get_pair as_mapping as_sequence as_text to_pairs
    to_yamls subjects_of contains royak.Apply.Base.somes
check_rbac-apply_role_binding_example =
    check_rbac-apply_role_binding role_world binding (codes "reader") reader (codes "bob")
      (codes "pods") (codes "get") (codes "default") refl refl refl

abbrev volume : Text → StoredPv
volume name = record {
  name = name;
  capacity = codes "1Gi";
  storage_class = codes "fast";
  host_path = codes "/data/" ++ name;
  access_mode = codes "ReadWriteOnce";
  status = PvStatus.available;
  bound_to = none;
}

abbrev claim_spec : Yaml
claim_spec =
    Yaml.mapping
      (Pairs.pair (Yaml.str (codes "storageClassName")) (Yaml.str (codes "fast")) Pairs.end)

volume-IsOnOffer : (name : Text) → IsOnOffer claim_spec (volume name)
unfolding text_at access_mode_of get_at_path get_key_of get_pair as_text as_sequence text_eq
volume-IsOnOffer name = record { free = refl; of_class = refl; of_mode = refl }

a_is_not_b : codes "a" ≢ codes "b"
unfolding text_eq
a_is_not_b = text_ne (codes "a") (codes "b") refl

apply_claim-order_example :
    let one = record new_world {
      pvs = (codes "a", volume (codes "a")) ∷ (codes "b", volume (codes "b")) ∷ [];
    } in
    let other = record new_world {
      pvs = (codes "b", volume (codes "b")) ∷ (codes "a", volume (codes "a")) ∷ [];
    } in
    ((k : Text) → lookup k one.pvs ≡ lookup k other.pvs)
    × (bound_volume (apply_claim one claim).world (codes "logs") ≡ some (codes "a"))
    × (bound_volume (apply_claim other claim).world (codes "logs") ≡ some (codes "b"))
apply_claim-order_example =
    apply_claim-order new_world claim claim_spec (codes "a") (codes "b") (volume (codes "a"))
      (volume (codes "b")) [] refl a_is_not_b (volume-IsOnOffer (codes "a"))
      (volume-IsOnOffer (codes "b"))
