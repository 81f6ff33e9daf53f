-- ===== src/Ingress.antt =====
-- src/api.rs: the routes of the ingress, looked up in the world (`find_backend`) and in the table
-- that the reconcile loop publishes (`publish_ingress_snapshot`, `snapshot_backend`). The containers
-- that run and their addresses are arguments, and the counter of the round robin is explicit.
pub mod Hostless
pub mod Longest
pub mod RoundRobin
mod Tests
use royak.Prelude.{
  values, ltb, ◌==◌, if◌then◌else◌, unwrap_or, ◌>>=◌, length, get_elem?, any, find, filter, lookup,
  Text, codes, text_eq, is_empty, starts_with, ℕ, ◌+◌, ◌-◌, ◌%◌, ◌^◌, Bool, true, ◌&&◌, ◌||◌,
  Option, none, some, List, [], ◌∷◌, ◌++◌, map,
}
use royak.World.Services.{IngressPath, IngressRule, StoredIngress, StoredService, ServicePort}
use royak.World.Workloads.{StoredDeployment}
use royak.World.State.{DesiredWorld}
use royak.Mesh.{default_mesh_port}

unfoldable pub is_longer : IngressPath → Option IngressPath → Bool
is_longer ip none = true
is_longer ip (some best) = ltb (length best.path) (length ip.path)

-- The loop over the paths of a rule.
unfoldable pub best_path : Text → Option IngressPath → List IngressPath → Option IngressPath
unfolding is_longer
best_path path best [] = best
best_path path best (ip ∷ ips) =
    let taken = best_path path (some ip) ips in
    let left = best_path path best ips in
    if starts_with path ip.path && is_longer ip best then taken else left

unfoldable pub is_for : Text → IngressRule → Bool
is_for host rule = is_empty rule.host || text_eq rule.host host

unfoldable pub backend_of : Option IngressPath → Option (Text × ℕ) → Option (Text × ℕ)
backend_of none rest = rest
backend_of (some ip) rest = some (ip.service, ip.port)

-- The loop over the rules, which returns at the first that has a path.
unfoldable pub find_in_rules :
    Text → Text → List IngressRule → Option (Text × ℕ) → Option (Text × ℕ)
unfolding best_path is_for backend_of
find_in_rules host path [] next = next
find_in_rules host path (rule ∷ rules) next =
    let rest = find_in_rules host path rules next in
    if is_for host rule then backend_of (best_path path none rule.paths) rest else rest

unfoldable pub find_in_ingresses : Text → Text → List StoredIngress → Option (Text × ℕ)
unfolding find_in_rules
find_in_ingresses host path [] = none
find_in_ingresses host path (i ∷ is) =
    find_in_rules host path i.rules (find_in_ingresses host path is)

unfoldable pub find_backend : DesiredWorld → Text → Text → Option (Text × ℕ)
unfolding find_in_ingresses
find_backend world host path = find_in_ingresses host path (values world.ingresses)

unfoldable pub target_port_for : List ServicePort → ℕ → ℕ
target_port_for ports rule_port = elim (find (λ p. p.port == rule_port) ports) [
  | none ↦ rule_port
  | some p ↦ p.target_port
]

abbrev service_named : DesiredWorld → Text → Option StoredService
service_named world service = find (λ s. text_eq s.name service) (values world.services)

unfoldable pub resolve_target_port : DesiredWorld → Text → ℕ → ℕ
unfolding target_port_for
resolve_target_port world service rule_port = elim (service_named world service) [
  | none ↦ rule_port
  | some svc ↦ target_port_for svc.ports rule_port
]

-- The deployment with the name of the service's application, in its namespace.
unfoldable pub backing_deployment : DesiredWorld → Text → Option StoredDeployment
backing_deployment world service = do
  svc ← service_named world service
  app ← lookup (codes "app") svc.selector
  find (λ d. text_eq d.name app && text_eq d.namespace svc.namespace) (values world.deployments)

unfoldable pub service_deployment : DesiredWorld → Text → Option Text
unfolding backing_deployment
service_deployment world service = backing_deployment world service >>= λ d. some d.name

-- (ip, port, target_pod, pod_port)
pub record Backend : Type 0 where
  pub ip : Text
  pub port : ℕ
  pub target_pod : Text
  pub pod_port : ℕ

pub record ResolvedRoute : Type 0 where
  pub host : Text
  pub path : Text
  pub backends : List Backend

pub record Container : Type 0 where
  pub names : List Text
  pub state : Text

-- What Docker says: the containers, if it answers, and their addresses.
pub record Docker : Type 0 where
  pub containers : Option (List Container)
  pub container_ip : Text → Option Text

-- `s.trim_start_matches('/')`
unfoldable pub trim_slashes : Text → Text
trim_slashes [] = []
trim_slashes (c ∷ s) = let rest = trim_slashes s in if c == 47 then rest else c ∷ s

-- `s.rsplit_once(':')`, the part before the last colon.
unfoldable pub before_last_colon : Text → Option Text
before_last_colon [] = none
before_last_colon (c ∷ s) = elim (before_last_colon s) [
  | some t ↦ some (c ∷ t)
  | none ↦ if c == 58 then some [] else none
]

abbrev pod_prefix : Text → Text
pod_prefix deployment = codes "rk-" ++ deployment ++ codes "-"

unfoldable pub first_name : List Text → Option Text
first_name [] = none
first_name (n ∷ ns) = some n

unfoldable pub address_of : Docker → Text → Container → List Text
unfolding trim_slashes first_name
address_of docker prefix c =
    if text_eq c.state (codes "running") && any (λ n. starts_with (trim_slashes n) prefix) c.names
    then (elim (first_name c.names >>= λ n. docker.container_ip (trim_slashes n)) [
      | none ↦ []
      | some ip ↦ if is_empty ip then [] else ip ∷ []
    ])
    else []

unfoldable pub concat_map {ℓ κ} : {A : Type ℓ} {B : Type κ} → (A → List B) → List A → List B
concat_map f [] = []
concat_map f (x ∷ xs) = f x ++ concat_map f xs

unfoldable pub resolve_service_to_all_pod_ips : Docker → DesiredWorld → Text → List Text
unfolding backing_deployment address_of concat_map
resolve_service_to_all_pod_ips docker world service = elim (backing_deployment world service) [
  | none ↦ []
  | some d ↦ concat_map (address_of docker (pod_prefix d.name)) (unwrap_or docker.containers [])
]

-- The pods of a deployment on other nodes, by (peer address, pod).
unfoldable pub remote_backends : ℕ → Text → List (Text × Text) → List Backend
unfolding before_last_colon
remote_backends pod_port prefix [] = []
remote_backends pod_port prefix ((addr, pod) ∷ peers) =
    let rest = remote_backends pod_port prefix peers in
    if starts_with pod prefix
    then record {
      ip = unwrap_or (before_last_colon addr) addr;
      port = default_mesh_port;
      target_pod = pod;
      pod_port = pod_port;
    }
      ∷ rest
    else rest

unfoldable pub backends_for :
    Docker → List (Text × Text) → DesiredWorld → IngressPath → List Backend
unfolding resolve_target_port service_deployment resolve_service_to_all_pod_ips remote_backends
backends_for docker peers world ip_path =
    let pod_port = resolve_target_port world ip_path.service ip_path.port in
    map (λ ip. record { ip = ip; port = pod_port; target_pod = []; pod_port = pod_port })
      (resolve_service_to_all_pod_ips docker world ip_path.service)
    ++ elim (service_deployment world ip_path.service) [
      | none ↦ []
      | some dep ↦ remote_backends pod_port (pod_prefix dep) peers
    ]

unfoldable pub route_for :
    Docker → List (Text × Text) → DesiredWorld → Text → IngressPath → List ResolvedRoute
unfolding backends_for
route_for docker peers world host ip_path =
    let backends = backends_for docker peers world ip_path in
    if is_empty backends
    then []
    else record { host = host; path = ip_path.path; backends = backends } ∷ []

-- The table that `publish_ingress_snapshot` stores.
unfoldable pub published_routes : Docker → List (Text × Text) → DesiredWorld → List ResolvedRoute
unfolding route_for concat_map
published_routes docker peers world =
    concat_map
      (λ i.
        concat_map (λ rule. concat_map (route_for docker peers world rule.host) rule.paths) i.rules)
      (values world.ingresses)

abbrev serves : Text → Text → ResolvedRoute → Bool
serves host path r = (is_empty r.host || text_eq r.host host) && starts_with path r.path

-- `max_by_key`, which takes the last of the longest.
unfoldable pub last_longest : Option ResolvedRoute → List ResolvedRoute → Option ResolvedRoute
last_longest best [] = best
last_longest none (r ∷ rs) = last_longest (some r) rs
last_longest (some b) (r ∷ rs) =
    let taken = last_longest (some r) rs in
    let left = last_longest (some b) rs in
    if ltb (length r.path) (length b.path) then left else taken

-- The counter of the round robin moves on only where a backend is given.
unfoldable pub take_turn : ℕ → Option ResolvedRoute → ℕ × Option Backend
take_turn counter none = (counter, none)
take_turn counter (some route) =
    if is_empty route.backends
    then (counter, none)
    else ((counter + 1) % 2 ^ 64, get_elem? route.backends (counter % length route.backends))

unfoldable pub snapshot_backend : List ResolvedRoute → ℕ → Text → Text → ℕ × Option Backend
unfolding last_longest take_turn
snapshot_backend routes counter host path =
    take_turn counter (last_longest none (filter (serves host path) routes))
