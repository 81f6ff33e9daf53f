-- ===== src/Apply/Base.antt =====
-- What the arms of `apply` share: results, effects, the readers of serde_yaml that are parameters,
-- and small text functions.
use royak.Prelude.{
  ◌||◌, is_empty, if◌then◌else◌, unwrap_or, parse_unsigned, length, take, Map, insert, contains_key,
  Text, codes, text_eq, ℕ, zero, suc, ◌-◌, ◌^◌, ◌⊎◌, Bool, Option, none, some, List, [], ◌∷◌, ◌++◌,
}
use royak.World.Yaml.{Yaml, text_entries}
use royak.World.Json.{Json}
use royak.World.Manifest.{
  Resource, DeploymentSpec, PodSpec, ServiceSpec, ClusterConfigSpec, FunctionSpec, RepositorySpec,
  PipelineSpec, EnvVar,
}
use royak.World.Workloads.{F32}
use royak.World.State.{DesiredWorld}

-- `Result<String, String>`
pub data Outcome : Type 0 where
  ok err : Text → Outcome

pub data Effect : Type 0 where
  -- `create_dir_all(path).ok()`
  create_dir : (path : Text) → Effect
  -- stops and removes the containers with the prefix in a name
  restart_pods : (prefix : Text) → Effect

pub record Applied : Type 0 where
  pub outcome : Outcome
  pub world : DesiredWorld
  pub effects : List Effect

abbrev pub Arm : Type 0
Arm = DesiredWorld → Resource → Applied

-- An early return of an error, before anything changed.
unfoldable pub failed : Text → DesiredWorld → Applied
failed message w = record { outcome = Outcome.err message; world = w; effects = [] }

unfoldable pub done : Text → DesiredWorld → Applied
done message w = record { outcome = Outcome.ok message; world = w; effects = [] }

-- `opt.ok_or(message)?`
unfoldable pub needs {ℓ} : {A : Type ℓ} → Option A → Text → DesiredWorld → (A → Applied) → Applied
unfolding failed
needs none message w k = failed message w
needs (some a) message w k = k a

-- serde's derived readers, with their error messages, and operations on f32. `neuropod` is the
-- creation and the start of a NeuroPod by name, image, disk size, mount path and environment, with
-- the messages of its results.
pub record Readers : Type 0 where
  pub deployment_spec : Yaml → Option DeploymentSpec
  pub deployment_error : Yaml → Text
  pub pod_spec : Yaml → Option PodSpec
  pub service_spec : Yaml → Option ServiceSpec
  pub config_spec : Yaml → Text ⊎ ClusterConfigSpec
  pub function_spec : Yaml → Text ⊎ FunctionSpec
  pub repository_spec : Yaml → Text ⊎ RepositorySpec
  pub pipeline_spec : Yaml → Text ⊎ PipelineSpec
  pub to_json : Yaml → Json
  pub show_yaml : Yaml → Text
  -- `as_f64` and the conversion to f32
  pub as_f32 : Yaml → Option F32
  pub parse_f32 : Text → Option F32
  pub per_thousand : F32 → F32
  pub show_f32 : F32 → Text
  pub from_utf8 : List ℕ → Option Text
  pub neuropod : Text → Text → ℕ → Text → List Text → Outcome

unfoldable pub namespace_of : Resource → Text
namespace_of r = unwrap_or r.metadata.namespace (codes "default")

abbrev pub no_spec : Text
no_spec = codes "No spec"

-- `s.ends_with(p)`
unfoldable pub ends_with : Text → Text → Bool
ends_with [] p = is_empty p
ends_with (c ∷ s) p = text_eq (c ∷ s) p || ends_with s p

-- `s.strip_suffix(p)`
unfoldable pub strip_suffix : Text → Text → Option Text
unfolding ends_with
strip_suffix s p = if ends_with s p then some (take (length s - length p) s) else none

-- `s.trim_end_matches(p)`: the suffix is taken away as often as it stands there. Each time makes the
-- text shorter, so its length is enough rounds; `p` is not empty.
unfoldable pub trim_end_matches : Text → Text → Text
unfolding strip_suffix
trim_end_matches s p = go (length s) s
  where
    go : ℕ → Text → Text
    go zero t = t
    go (suc n) t = elim (strip_suffix t p) [ none ↦ t | some u ↦ go n u ]

unfoldable pub parse_u64 : Text → Option ℕ
parse_u64 s = parse_unsigned (2 ^ 64) s

unfoldable pub join : Text → List Text → Text
join sep [] = []
join sep (s ∷ []) = s
join sep (s ∷ t ∷ ss) = s ++ sep ++ join sep (t ∷ ss)

-- `data.entry(key).or_insert(value)`
unfoldable pub insert_new {ℓ} : {V : Type ℓ} → Text → V → Map V → Map V
insert_new k v m = if contains_key k m then m else insert k v m

unfoldable pub insert_all_new : List (Text × Text) → Map Text → Map Text
unfolding insert_new
insert_all_new [] m = m
insert_all_new ((k, v) ∷ es) m = insert_all_new es (insert_new k v m)

-- `iter.collect::<HashMap<_, _>>()` of pairs, and `extend`
unfoldable pub insert_all {ℓ} : {V : Type ℓ} → List (Text × V) → Map V → Map V
insert_all [] m = m
insert_all ((k, v) ∷ es) m = insert_all es (insert k v m)

-- The string entries of a field that may be missing or no mapping.
unfoldable pub entries_of : Option (List (Yaml × Yaml)) → List (Text × Text)
entries_of none = []
entries_of (some ps) = text_entries ps

-- `{name}={value}` for the variables that have a value
unfoldable pub env_lines : List EnvVar → List Text
env_lines [] = []
env_lines (e ∷ es) =
    let rest = env_lines es in
    elim e.value [ none ↦ rest | some v ↦ (e.name ++ codes "=" ++ v) ∷ rest ]

unfoldable pub env_of : Option (List EnvVar) → List Text
unfolding env_lines
env_of vars = env_lines (unwrap_or vars [])

unfoldable pub concat {ℓ} : {A : Type ℓ} → List (List A) → List A
concat [] = []
concat (xs ∷ xss) = xs ++ concat xss

-- The members of a list that are there.
unfoldable pub somes {ℓ} : {A : Type ℓ} → List (Option A) → List A
somes [] = []
somes (none ∷ os) = somes os
somes (some a ∷ os) = a ∷ somes os
