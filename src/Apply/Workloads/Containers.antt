-- ===== src/Apply/Workloads/Containers.antt =====
-- src/reconcile.rs, `DesiredWorld::apply`: the containers and the volumes of a pod.
use royak.World.Workloads.{StoredContainer, StoredProbe}
use royak.Prelude.{
  if◌then◌else◌, is_some, unwrap_or, ◌>>=◌, Map, lookup, Text, codes, text_eq, starts_with,
  contains_text, Bool, not, ◌&&◌, Option, none, some, List, [], ◌∷◌, ◌++◌, map,
}
use royak.Apply.Base.{Effect, env_of, somes}
use royak.World.Manifest.{DeploymentSpec, ContainerSpec, ProbeSpec, VolumeSpec, VolumeMount}
use royak.World.State.{DesiredWorld}

unfoldable pub validate_path : Text → Bool
validate_path path =
    not (contains_text path (codes ".."))
    && not (contains_text path (codes "~"))
    && starts_with path (codes "/")
    && not (contains_text path (codes "//"))

abbrev pub empty_dir_path : Text → Text → Text
empty_dir_path name volume = codes "/tmp/royak-" ++ name ++ codes "-" ++ volume

-- Where a volume of the pod is, for the deployment of a name: the first source that is there counts.
unfoldable pub volume_entry : DesiredWorld → Text → VolumeSpec → Option (Text × Text)
unfolding validate_path
volume_entry w name v = elim v.host_path [
  | some path ↦ if not (validate_path path) then none else some (v.name, path)
  | none ↦ elim v.empty_dir [
    | some e ↦ some (v.name, empty_dir_path name v.name)
    | none ↦ elim v.config_map [
      | some cm ↦ some (v.name, codes "cmv:" ++ cm)
      | none ↦ elim v.secret [
        | some sv ↦ some (v.name, codes "sev:" ++ sv)
        | none ↦
            v.pvc
            >>= (λ claim. lookup claim w.pvcs)
            >>= (λ pvc. pvc.bound_pv)
            >>= (λ pv_name. lookup pv_name w.pvs)
            >>= λ pv. some (v.name, pv.host_path)
      ]
    ]
  ]
]

unfoldable pub volume_entries : DesiredWorld → Text → List VolumeSpec → List (Text × Text)
unfolding volume_entry
volume_entries w name volumes = somes (map (volume_entry w name) volumes)

-- The directories that are made for the empty volumes.
unfoldable pub volume_dirs : Text → List VolumeSpec → List Effect
volume_dirs name [] = []
volume_dirs name (v ∷ vs) =
    let rest = volume_dirs name vs in
    if not (is_some v.host_path) && is_some v.empty_dir
    then Effect.create_dir (empty_dir_path name v.name) ∷ rest
    else rest

-- The claim templates of a StatefulSet, which every ordinal resolves for itself.
unfoldable pub claim_templates : Text → DeploymentSpec → List (Text × Text)
claim_templates kind dep =
    if text_eq kind (codes "StatefulSet")
    then map (λ n. (n, codes "vct:" ++ n)) (unwrap_or dep.volume_claim_templates [])
    else []

unfoldable pub probe_of : ProbeSpec → StoredProbe
probe_of p = record {
  http_get = p.http_get;
  exec = p.exec;
  initial_delay_seconds = p.initial_delay_seconds;
  period_seconds = p.period_seconds;
  failure_threshold = p.failure_threshold;
}

abbrev probe : Option ProbeSpec → Option StoredProbe
probe p = p >>= λ q. some (probe_of q)

unfoldable pub mounted : Map Text → VolumeMount → Option (Text × Text)
mounted volumes m = lookup m.name volumes >>= λ host. some (host, m.mount_path)

unfoldable pub stored_container : Map Text → ContainerSpec → StoredContainer
unfolding mounted probe_of
stored_container volumes c = record {
  name = c.name;
  image = c.image;
  command = c.command;
  env = env_of c.env;
  env_from_configmaps = somes (map (λ r. r.config_map_ref) (unwrap_or c.env_from []));
  env_from_secrets = somes (map (λ r. r.secret_ref) (unwrap_or c.env_from []));
  volumes = somes (map (mounted volumes) (unwrap_or c.volume_mounts []));
  liveness_probe = probe c.liveness_probe;
  readiness_probe = probe c.readiness_probe;
  startup_probe = probe c.startup_probe;
}

-- An init container, and the container of a set or a job: no volumes and no probes.
unfoldable pub init_container : ContainerSpec → StoredContainer
init_container c = record {
  name = c.name;
  image = c.image;
  command = c.command;
  env = env_of c.env;
  env_from_configmaps = [];
  env_from_secrets = [];
  volumes = [];
  liveness_probe = none;
  readiness_probe = none;
  startup_probe = none;
}
