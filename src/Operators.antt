-- ===== src/Operators.antt =====
-- src/reconcile.rs, `reconcile_operators`: custom resources and the deployments that their operators
-- provision. The runs of commands, the splitting at white space and the upper case are parameters.
pub mod Convergence
mod Tests
use royak.Prelude.{
  ltb, if◌then◌else◌, unwrap_or, ◌>>=◌, decimal, find, Map, lookup, insert, modify, contains_key,
  keys, Text, codes, text_eq, is_empty, contains_text, ℕ, ◌-◌, ◌%◌, ◌^◌, Bool, false, ◌&&◌, ◌||◌,
  Option, none, some, List, [], ◌∷◌, ◌++◌, map,
}
use royak.Prelude.{values}
use royak.World.Json.{Json, get, as_u64, as_object, as_str}
use royak.World.Cluster.{Operator, OperatorComponent, CustomResource, CrStatus}
use royak.World.Workloads.{StoredContainer, StoredDeployment}
use royak.World.State.{DesiredWorld}

-- `run` is `Command::new(parts[0]).args(&parts[1..]).output()` as text, or the text of its error.
pub record System : Type 0 where
  pub split_whitespace : Text → List Text
  pub run : List Text → Text
  pub to_uppercase : Text → Text

abbrev pub Log : Type 0
Log = List Text

abbrev tick : Text
tick = 226 ∷ 156 ∷ 147 ∷ []

abbrev dash : Text
dash = 226 ∷ 128 ∷ 148 ∷ []

abbrev times : Text
times = 195 ∷ 151 ∷ []

unfoldable pub is_unsafe : Text → Bool
is_unsafe hook =
    contains_text hook (codes "..")
    || contains_text hook (codes "`")
    || contains_text hook (codes "$(")
    || contains_text hook (codes ";")
    || contains_text hook (codes "|")
    || contains_text hook (codes "&")

unfoldable pub dep_name : Text → OperatorComponent → Text
dep_name cr_name component = cr_name ++ codes "-" ++ component.role

-- The operator for a kind of resource.
unfoldable pub find_operator : DesiredWorld → Text → Option Operator
find_operator w kind = find (λ o. text_eq o.custom_kind kind) (values w.operators)

-- The first component whose deployment is not there.
unfoldable pub first_missing : Text → Map StoredDeployment → List OperatorComponent → Option Text
unfolding dep_name
first_missing cr_name deployments [] = none
first_missing cr_name deployments (c ∷ cs) =
    if contains_key (dep_name cr_name c) deployments
    then first_missing cr_name deployments cs
    else some (dep_name cr_name c)

unfoldable pub set_status : Text → CrStatus → DesiredWorld → DesiredWorld
set_status cr_name status w = record w {
  custom_resources = modify cr_name (λ cr. record cr { status = status }) w.custom_resources;
}

unfoldable pub cr_replicas : Json → ℕ
cr_replicas spec = unwrap_or (get (codes "replicas") spec >>= as_u64) 0 % 2 ^ 32

abbrev is_role : Text → OperatorComponent → Bool
is_role role component = text_eq component.role role

-- The replicas that the deployment of a component is given.
unfoldable pub component_replicas : ℕ → OperatorComponent → ℕ
component_replicas wanted component =
    let replicas =
      if ltb 0 wanted && is_role (codes "replica") component
      then wanted - 1
      else component.replicas in
    if is_role (codes "primary") component then 1 else replicas

module _ (sys : System) where
  unfoldable pub safe_exec_hook : Text → Text
  unfolding is_unsafe
  safe_exec_hook hook =
      if is_empty (sys.split_whitespace hook)
      then []
      else if is_unsafe hook
      then codes "BLOCKED: unsafe characters in hook: " ++ hook
      else sys.run (sys.split_whitespace hook)

  -- The strings of the spec as variables.
  unfoldable pub spec_env : Map Json → List Text
  spec_env [] = []
  spec_env ((k, v) ∷ fields) =
      let rest = spec_env fields in
      elim (as_str v) [
        | none ↦ rest
        | some s ↦ (codes "CR_" ++ sys.to_uppercase k ++ codes "=" ++ s) ∷ rest
      ]

  unfoldable pub component_env : Json → OperatorComponent → List Text
  component_env spec component = component.env ++ spec_env (unwrap_or (as_object spec) [])

  unfoldable pub component_container : Json → OperatorComponent → StoredContainer
  component_container spec component = record {
    name = component.role;
    image = component.image;
    command = none;
    env = component_env spec component;
    env_from_configmaps = [];
    env_from_secrets = [];
    volumes = [];
    liveness_probe = none;
    readiness_probe = none;
    startup_probe = none;
  }

  unfoldable pub component_deployment : Text → CustomResource → OperatorComponent → StoredDeployment
  unfolding dep_name cr_replicas component_replicas component_container component_env
  component_deployment cr_name cr component = record {
    name = dep_name cr_name component;
    namespace = cr.namespace;
    replicas = component_replicas (cr_replicas cr.spec) component;
    image = component.image;
    previous_image = none;
    command = none;
    env = component_env cr.spec component;
    init_containers = [];
    containers = component_container cr.spec component ∷ [];
    resource_limits = none;
    strategy = none;
    pause_after_idle = none;
    paused = false;
    idle_since = none;
    stateful = false;
    owner_ref = some cr_name;
  }

  -- The loop over the components.
  unfoldable pub provision_all :
      Text → CustomResource → List OperatorComponent → Map StoredDeployment → Map StoredDeployment
  unfolding component_deployment
  provision_all cr_name cr [] deployments = deployments
  provision_all cr_name cr (c ∷ cs) deployments =
      provision_all cr_name cr cs
        (insert (dep_name cr_name c) (component_deployment cr_name cr c) deployments)

  unfoldable pub provision_log : CustomResource → OperatorComponent → Text
  provision_log cr component =
      codes "    ["
      ++ component.role
      ++ codes "] "
      ++ component.image
      ++ codes " "
      ++ times
      ++ codes " "
      ++ decimal (component_replicas (cr_replicas cr.spec) component)
      ++ codes " "
      ++ tick

  unfoldable pub hook_log : Option Text → Log
  unfolding safe_exec_hook
  hook_log none = []
  hook_log (some hook) =
      if is_empty (safe_exec_hook hook)
      then []
      else (codes "    [hook/on_create] " ++ safe_exec_hook hook) ∷ []

  abbrev headline : Operator → Text → CustomResource → Text
  headline op cr_name cr =
      codes "  [operator/" ++ op.name ++ codes "] " ++ cr.kind ++ codes "/" ++ cr_name

  -- A resource that is provisioning or running: one of its deployments is missing, or none.
  unfoldable pub verify :
      DesiredWorld → Text → CustomResource → Operator → CrStatus → Option Text → DesiredWorld × Log
  unfolding set_status
  verify w cr_name cr op status (some missing) = (
    set_status cr_name CrStatus.pending w,
    (headline op cr_name cr
          ++ codes ": component "
          ++ missing
          ++ codes " MISSING "
          ++ dash
          ++ codes " re-provisioning")
        ∷ [],
  )
  verify w cr_name cr op CrStatus.provisioning none = (
    set_status cr_name CrStatus.running w,
    (headline op cr_name cr ++ codes ": promoted to Running " ++ tick) ∷ [],
  )
  verify w cr_name cr op CrStatus.running none = (w, [])
  verify w cr_name cr op CrStatus.pending none = (w, [])
  verify w cr_name cr op CrStatus.failed none = (w, [])

  unfoldable pub provision_cr : DesiredWorld → Text → CustomResource → Operator → DesiredWorld × Log
  unfolding set_status provision_all provision_log hook_log
  provision_cr w cr_name cr op = (
    set_status cr_name CrStatus.provisioning
        (record w { deployments = provision_all cr_name cr op.provision w.deployments }),
    (codes "  [operator/"
            ++ op.name
            ++ codes "] provisioning "
            ++ cr.kind
            ++ codes "/"
            ++ cr_name
            ++ codes "...")
          ∷ map (provision_log cr) op.provision
        ++ hook_log (lookup (codes "on_create") op.hooks),
  )

  unfoldable pub reconcile_status :
      CrStatus → DesiredWorld → Text → CustomResource → Operator → DesiredWorld × Log
  unfolding first_missing verify provision_cr
  reconcile_status CrStatus.running w cr_name cr op =
      verify w cr_name cr op CrStatus.running (first_missing cr_name w.deployments op.provision)
  reconcile_status CrStatus.provisioning w cr_name cr op =
      verify w cr_name cr op CrStatus.provisioning
        (first_missing cr_name w.deployments op.provision)
  reconcile_status CrStatus.pending w cr_name cr op = provision_cr w cr_name cr op
  reconcile_status CrStatus.failed w cr_name cr op = (w, [])

  unfoldable pub reconcile_cr :
      DesiredWorld → Text → CustomResource → Option Operator → DesiredWorld × Log
  unfolding reconcile_status
  reconcile_cr w cr_name cr none = (
    w,
    (codes "  [CR] "
          ++ cr.kind
          ++ codes "/"
          ++ cr_name
          ++ codes ": no operator registered for kind '"
          ++ cr.kind
          ++ codes "'")
        ∷ [],
  )
  reconcile_cr w cr_name cr (some op) = reconcile_status cr.status w cr_name cr op

  unfoldable pub reconcile_found : DesiredWorld → Text → Option CustomResource → DesiredWorld × Log
  unfolding reconcile_cr find_operator
  reconcile_found w cr_name none = (w, [])
  reconcile_found w cr_name (some cr) = reconcile_cr w cr_name cr (find_operator w cr.kind)

  -- The names are keys of the map, and no step takes one out.
  unfoldable pub reconcile_name : DesiredWorld → Text → DesiredWorld × Log
  unfolding reconcile_found
  reconcile_name w cr_name = reconcile_found w cr_name (lookup cr_name w.custom_resources)

  unfoldable pub reconcile_names : List Text → DesiredWorld → DesiredWorld × Log
  unfolding reconcile_name
  reconcile_names [] w = (w, [])
  reconcile_names (n ∷ ns) w =
      let one = reconcile_name w n in
      let rest = reconcile_names ns one.0 in (rest.0, one.1 ++ rest.1)

  unfoldable pub reconcile_operators : DesiredWorld → DesiredWorld × Log
  unfolding reconcile_names
  reconcile_operators w = reconcile_names (keys w.custom_resources) w
