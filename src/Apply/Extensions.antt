-- ===== src/Apply/Extensions.antt =====
-- src/reconcile.rs, `DesiredWorld::apply`: guards, operators, custom resources and NeuroPods.
use royak.World.Cluster.{CrStatus, OperatorComponent, GuardRule}
use royak.Prelude.{
  unwrap_or, ◌>>=◌, decimal, length, Map, insert, Text, codes, ℕ, ◌*◌, ◌%◌, ◌^◌, Option, none, some,
  List, [], ◌∷◌, ◌++◌, map,
}
use royak.Apply.Base.{
  Arm, Readers, done, needs, namespace_of, no_spec, insert_all, entries_of, parse_u64, strip_suffix,
  somes,
}
use royak.World.Yaml.{
  Yaml, get_key_of, get_at_path, as_text, as_number, as_sequence, as_mapping, text_at, texts_of,
}
use royak.World.Manifest.{Resource}

-- The string entries of a mapping at a key, collected into a map.
unfoldable pub text_map_at : Text → Yaml → Map Text
text_map_at k v = insert_all (entries_of (get_key_of k v >>= as_mapping)) []

unfoldable pub list_at : Text → Yaml → List Yaml
list_at k v = unwrap_or (get_key_of k v >>= as_sequence) []

unfoldable pub guard_rule : Yaml → GuardRule
unfolding text_map_at
guard_rule r = record {
  when = text_at (codes "when" ∷ []) (codes "anomaly") r;
  action = text_at (codes "action" ∷ []) (codes "restart") r;
  params = text_map_at (codes "params") r;
}

unfoldable pub apply_guard : Arm
unfolding needs done
apply_guard w r = needs r.spec no_spec w (λ sv.
    let name = r.metadata.name in
    let rules = map guard_rule (list_at (codes "rules") sv) in
    done
      (codes "guard/" ++ name ++ codes " configured (" ++ decimal (length rules) ++ codes " rules)")
      (record w {
        guards =
            insert name
              (record { name = name; rules = rules; hooks = text_map_at (codes "hooks") sv })
              w.guards;
      }))

unfoldable pub component : Yaml → OperatorComponent
unfolding list_at
component c = record {
  role = text_at (codes "role" ∷ []) (codes "primary") c;
  image = text_at (codes "image" ∷ []) [] c;
  replicas = unwrap_or (get_key_of (codes "replicas") c >>= as_number) 1 % 2 ^ 32;
  env = texts_of (list_at (codes "env") c);
  volumes = [];
  ports = [];
}

unfoldable pub apply_operator : Arm
unfolding needs done
apply_operator w r = needs r.spec no_spec w (λ sv.
    needs (get_key_of (codes "customKind") sv >>= as_text) (codes "Operator needs spec.customKind")
      w
      (λ custom_kind.
        let name = r.metadata.name in
        let provision = map component (list_at (codes "provision") sv) in
        done
          (codes "operator/"
            ++ name
            ++ codes " for kind '"
            ++ custom_kind
            ++ codes "' ("
            ++ decimal (length provision)
            ++ codes " components)")
          (record w {
            operators =
                insert name
                  (record {
                    name = name;
                    custom_kind = custom_kind;
                    provision = provision;
                    hooks = text_map_at (codes "hooks") sv;
                    rules = [];
                  })
                  w.operators;
          })))

-- The namespace stands in for the kind where the spec names no `resourceKind`.
unfoldable pub cr_kind_of : Resource → Yaml → Text
cr_kind_of r sv =
    unwrap_or (get_key_of (codes "resourceKind") sv >>= as_text) (elim r.metadata.namespace [
      | some n ↦ n
      | none ↦ unwrap_or (get_key_of (codes "kind") sv >>= as_text) []
    ])

unfoldable pub apply_custom_resource : Readers → Arm
unfolding needs done
apply_custom_resource read w r = needs r.spec no_spec w (λ sv.
    let name = r.metadata.name in
    let kind = cr_kind_of r sv in
    done (codes "cr/" ++ kind ++ codes "/" ++ name ++ codes " created (pending operator)")
      (record w {
        custom_resources =
            insert name
              (record {
                name = name;
                kind = kind;
                namespace = namespace_of r;
                spec = read.to_json sv;
                status = CrStatus.pending;
              })
              w.custom_resources;
      }))

unfoldable pub disk_mb_of : Text → Option ℕ
disk_mb_of s = elim (strip_suffix s (codes "Gi")) [
  | some gi ↦ parse_u64 gi >>= λ n. some ((n * 1024) % 2 ^ 64)
  | none ↦ elim (strip_suffix s (codes "Mi")) [ some mi ↦ parse_u64 mi | none ↦ parse_u64 s ]
]

unfoldable pub env_entry : Yaml → Option Text
env_entry v = get_key_of (codes "name") v >>= as_text >>= λ k.
    get_key_of (codes "value") v >>= as_text >>= λ val. some (k ++ codes "=" ++ val)

-- A NeuroPod is made outside the world, which stays as it is.
unfoldable pub apply_neuropod : Readers → Arm
unfolding needs
apply_neuropod read w r = needs r.spec no_spec w (λ spec. record {
  outcome =
      read.neuropod r.metadata.name (text_at (codes "image" ∷ []) (codes "alpine:latest") spec)
        (unwrap_or (get_at_path (codes "disk" ∷ codes "size" ∷ []) spec >>= as_text >>= disk_mb_of)
          1024)
        (text_at (codes "disk" ∷ codes "mountPath" ∷ []) (codes "/data") spec)
        (somes (map env_entry (list_at (codes "env") spec)));
  world = w;
  effects = [];
})
