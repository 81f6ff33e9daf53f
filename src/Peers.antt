-- ===== src/Peers.antt =====
-- src/reconcile.rs, what a node learns of its peers: `merge_state`, the bookkeeping of
-- `send_heartbeats` and `check_node_health`. This node's name, the time and the conversion of a
-- JSON number to f32 are parameters; a number kept across f64 and back is taken to be unchanged.
use royak.World.Services.{StoredConfigMap}
use royak.World.Cluster.{NodeStatus, ClusterNode}
use royak.World.Workloads.{StoredDeployment, StoredContainer, F32}
pub mod Health
pub mod Union
mod Tests
use royak.Prelude.{
  ltb, if◌then◌else◌, unwrap_or, ◌>>=◌, decimal, Map, insert, modify, contains_key, Text, codes,
  text_eq, contains, ℕ, ◌+◌, ◌-◌, ◌/◌, ◌%◌, ◌^◌, Bool, true, false, not, ◌&&◌, Option, none, some,
  List, [], ◌∷◌, ◌++◌, map,
}
use royak.World.State.{DesiredWorld}
use royak.World.Json.{Json, get, index, as_str, as_u64, as_array, as_object}

-- `v.as_f64().map(|f| f as f32)`
abbrev pub AsF32 : Type 0
AsF32 = Json → Option F32

unfoldable pub text_or : Json → Text → Text
text_or v d = unwrap_or (as_str v) d

-- The entries of a remote object that are missing here are added, in the order of the object.
unfoldable pub merge_missing {ℓ} :
    {V : Type ℓ} → (Text → Json → V) → (Text → Text) → Map Json → Map V → List Text × Map V
merge_missing make message [] here = ([], here)
merge_missing make message ((name, val) ∷ more) here =
    let kept = merge_missing make message more here in
    let added = merge_missing make message more (insert name (make name val) here) in
    if contains_key name here then kept else (message name ∷ added.0, added.1)

module _ (as_f32 : AsF32) where
  unfoldable pub node_from : ℕ → Text → Json → ClusterNode
  node_from now name val = record {
    name = text_or (index (codes "name") val) name;
    address = text_or (index (codes "address") val) [];
    cpu_capacity = unwrap_or (as_f32 (index (codes "cpuCapacity") val)) 0x42c80000;
    mem_capacity = unwrap_or (as_f32 (index (codes "memCapacity") val)) 0;
    cpu_used = unwrap_or (as_f32 (index (codes "cpuUsed") val)) 0;
    mem_used = unwrap_or (as_f32 (index (codes "memUsed") val)) 0;
    pod_count = unwrap_or (as_u64 (index (codes "podCount") val)) 0 % 2 ^ 32;
    status = NodeStatus.ready;
    last_heartbeat = now;
    neural_token = [];
    joined_at = unwrap_or (as_u64 (index (codes "joinedAt") val)) now;
  }

  unfoldable pub refreshed : ℕ → Json → ClusterNode → ClusterNode
  refreshed now val node = record node {
    last_heartbeat = now;
    cpu_used = unwrap_or (as_f32 (index (codes "cpuUsed") val)) node.cpu_used;
    mem_used = unwrap_or (as_f32 (index (codes "memUsed") val)) node.mem_used;
    pod_count = unwrap_or (as_u64 (index (codes "podCount") val)) node.pod_count % 2 ^ 32;
  }

  unfoldable pub merge_nodes : ℕ → Map Json → Map ClusterNode → List Text × Map ClusterNode
  merge_nodes now [] nodes = ([], nodes)
  merge_nodes now ((name, val) ∷ more) nodes =
      let known = merge_nodes now more (modify name (refreshed now val) nodes) in
      let added = merge_nodes now more (insert name (node_from now name val) nodes) in
      if not (contains_key name nodes)
      then ((codes "node/" ++ name ++ codes " added") ∷ added.0, added.1)
      else known

unfoldable pub merge_namespaces : List Json → List Text → List Text × List Text
merge_namespaces [] here = ([], here)
merge_namespaces (v ∷ more) here = elim (as_str v) [
  | none ↦ merge_namespaces more here
  | some s ↦
      let kept = merge_namespaces more here in
      let added = merge_namespaces more (here ++ s ∷ []) in
      if not (contains here s)
      then ((codes "namespace/" ++ s ++ codes " added") ∷ added.0, added.1)
      else kept
]

unfoldable pub container_from : Json → StoredContainer
container_from c = record {
  name = text_or (index (codes "name") c) (codes "main");
  image = text_or (index (codes "image") c) [];
  command = none;
  env = [];
  env_from_configmaps = [];
  env_from_secrets = [];
  volumes = [];
  liveness_probe = none;
  readiness_probe = none;
  startup_probe = none;
}

unfoldable pub first_image : List StoredContainer → Text
first_image [] = []
first_image (c ∷ cs) = c.image

unfoldable pub containers_from : Json → List StoredContainer
containers_from val =
    unwrap_or (get (codes "containers") val >>= as_array >>= λ cs. some (map container_from cs)) []

unfoldable pub deployment_from : Text → Json → StoredDeployment
deployment_from name val = record {
  name = text_or (index (codes "name") val) name;
  namespace = text_or (index (codes "namespace") val) (codes "default");
  replicas = unwrap_or (as_u64 (index (codes "replicas") val)) 1 % 2 ^ 32;
  init_containers = [];
  containers = containers_from val;
  image = first_image (containers_from val);
  previous_image = none;
  command = none;
  env = [];
  resource_limits = none;
  strategy = none;
  pause_after_idle = none;
  paused = false;
  idle_since = none;
  stateful = false;
  owner_ref = as_str (index (codes "ownerRef") val);
}

unfoldable pub texts_from : Map Json → Map Text
texts_from [] = []
texts_from ((k, v) ∷ m) = (k, text_or v []) ∷ texts_from m

unfoldable pub configmap_from : Text → Json → StoredConfigMap
configmap_from name val = record {
  name = text_or (index (codes "name") val) name;
  namespace = text_or (index (codes "namespace") val) (codes "default");
  values = unwrap_or (get (codes "data") val >>= as_object >>= λ m. some (texts_from m)) [];
}

-- `remote.get(k).and_then(|v| v.as_object())`, with no entries where that is `None`.
unfoldable pub object_at : Text → Json → Map Json
object_at k remote = unwrap_or (get k remote >>= as_object) []

unfoldable pub merge_state : AsF32 → ℕ → DesiredWorld → Json → List Text × DesiredWorld
merge_state as_f32 now here remote =
    let nodes = merge_nodes as_f32 now (object_at (codes "nodes") remote) here.nodes in
    let namespaces =
      merge_namespaces (unwrap_or (get (codes "namespaces") remote >>= as_array) [])
        here.namespaces in
    let deployments =
      merge_missing deployment_from (λ n. codes "deployment/" ++ n ++ codes " synced from peer")
        (object_at (codes "deployments") remote) here.deployments in
    let configmaps =
      merge_missing configmap_from (λ n. codes "configmap/" ++ n ++ codes " synced from peer")
        (object_at (codes "configmaps") remote) here.configmaps in
    (
      nodes.0 ++ namespaces.0 ++ deployments.0 ++ configmaps.0,
      record here {
        nodes = nodes.1;
        namespaces = namespaces.1;
        deployments = deployments.1;
        configmaps = configmaps.1;
      },
    )

abbrev pub is_ready : NodeStatus → Bool
is_ready NodeStatus.ready = true
is_ready NodeStatus.not_ready = false
is_ready NodeStatus.draining = false

abbrev pub alive : ℕ → ClusterNode → ClusterNode
alive now n = record n { last_heartbeat = now; status = NodeStatus.ready }

-- The peers that are reached, by name, in the order of the requests.
unfoldable pub send_heartbeats :
    Text → (Text → Bool) → ℕ → Map ClusterNode → List Text → Map ClusterNode
send_heartbeats me reached now nodes [] = nodes
send_heartbeats me reached now nodes (name ∷ more) =
    let rest = send_heartbeats me reached now nodes more in
    let after = send_heartbeats me reached now (modify name (alive now) nodes) more in
    if not (text_eq name me) && reached name then after else rest

-- `no heartbeat for {age}s — marked NotReady`, after a sign that says so.
abbrev stale_line : Text → ℕ → Text
stale_line name age =
    codes "  "
    ++ (226 ∷ 154 ∷ 160 ∷ [])
    ++ codes " [node] "
    ++ name
    ++ codes ": no heartbeat for "
    ++ decimal age
    ++ codes "s "
    ++ (226 ∷ 128 ∷ 148 ∷ [])
    ++ codes " marked NotReady"

abbrev pub demoted : ClusterNode → ClusterNode
demoted n = record n { status = NodeStatus.not_ready }

unfoldable pub check_nodes : Text → ℕ → Map ClusterNode → List Text × Map ClusterNode
check_nodes me now [] = ([], [])
check_nodes me now ((name, node) ∷ more) =
    let rest = check_nodes me now more in
    let age = now - node.last_heartbeat in
    if text_eq name me
    then (rest.0, (name, node) ∷ rest.1)
    else if ltb 90 age && is_ready node.status
    then (stale_line name age ∷ rest.0, (name, demoted node) ∷ rest.1)
    else (rest.0, (name, node) ∷ rest.1)

unfoldable pub check_node_health : Text → ℕ → DesiredWorld → List Text × DesiredWorld
check_node_health me now w =
    let checked = check_nodes me now w.nodes in (checked.0, record w { nodes = checked.1 })
