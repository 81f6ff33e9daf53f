-- ===== src/Mesh.antt =====
-- src/cluster_mesh.rs, the routing of the service mesh: `Router` and `service_target_port`.
use royak.World.Services.{ServicePort}
use royak.World.Workloads.{StoredDeployment}
pub mod Routing
pub mod Head
mod Tests
use royak.Prelude.{
  ◌==◌, if◌then◌else◌, unwrap_or, ◌>>=◌, decimal, find, lookup, Text, codes, text_eq, ℕ, zero, suc,
  ◌+◌, ◌-◌, max, Bool, false, not, ◌&&◌, Option, none, some, List, [], ◌∷◌, ◌++◌,
}
use royak.Prelude.{values}
use royak.World.State.{DesiredWorld}

abbrev pub default_mesh_port : ℕ
default_mesh_port = 6550

pub data Endpoint : Type 0 where
  local_pod : (pod_name : Text) → Endpoint
  remote : (node_name node_addr pod_name : Text) → Endpoint
  no_backend unknown : Endpoint

pub record Router : Type 0 where
  pub world : DesiredWorld
  pub local_node : Text
  -- The address of a peer, and a pod on it.
  pub peer_pods : List (Text × Text)

unfoldable pub lookup_pod_node : Router → Text → Option Text
lookup_pod_node r pod_name =
    elim (find (λ p. text_eq p.1 pod_name && not (is_local_addr p.0)) r.peer_pods) [
      | none ↦ none
      | some p ↦ some p.0
    ]
  where
    is_local_addr : Text → Bool
    is_local_addr addr = elim (lookup r.local_node r.world.nodes) [
      | none ↦ false
      | some n ↦ text_eq addr n.address
    ]

unfoldable pub node_name_for_addr : Router → Text → Option Text
node_name_for_addr r api_addr =
    elim (find (λ n. text_eq n.address api_addr) (values r.world.nodes)) [
      | none ↦ none
      | some n ↦ some n.name
    ]

unfoldable pub pod_of : Text → ℕ → Text
pod_of deployment i = codes "rk-" ++ deployment ++ codes "-" ++ decimal i

-- The loop over the replicas from `i`, `left` of them: the first local pod, if there is one, and
-- otherwise the first remote one.
unfoldable pub scan :
    Router → Text → ℕ → ℕ → Option (Text × Text) → Option Text × Option (Text × Text)
scan r deployment zero i first = (none, first)
scan r deployment (suc left) i first =
    let pod = pod_of deployment i in
    elim (lookup_pod_node r pod) [
      | none ↦ (some pod, first)
      | some addr ↦
          scan r deployment left (suc i) (elim first [ none ↦ some (pod, addr) | some p ↦ some p ])
    ]

unfoldable pub route_to : Router → Text → Option Text × Option (Text × Text) → Endpoint
route_to r deployment (some pod, first) = Endpoint.local_pod pod
route_to r deployment (none, some (pod, addr)) =
    Endpoint.remote (unwrap_or (node_name_for_addr r addr) addr) addr pod
route_to r deployment (none, none) = Endpoint.local_pod (codes "rk-" ++ deployment ++ codes "-1")

unfoldable pub route : Router → StoredDeployment → Endpoint
route r d =
    if d.replicas == 0
    then Endpoint.no_backend
    else route_to r d.name (scan r d.name (max d.replicas 1) 1 none)

unfoldable pub resolve : Router → Text → Text → Endpoint
unfolding route
resolve r service_name namespace =
    elim (find (λ s. text_eq s.name service_name && text_eq s.namespace namespace)
      (values r.world.services)) [
        | none ↦ Endpoint.unknown
        | some svc ↦ elim (lookup (codes "app") svc.selector) [
          | none ↦ Endpoint.no_backend
          | some target_app ↦
              elim (find (λ d. text_eq d.name target_app && text_eq d.namespace namespace)
                (values r.world.deployments)) [ none ↦ Endpoint.no_backend | some d ↦ route r d ]
        ]
      ]

unfoldable pub first_port : List ServicePort → Option ServicePort
first_port [] = none
first_port (p ∷ ps) = some p

-- `filter(|&p| p != 0)`
abbrev pub nonzero : Option ℕ → Option ℕ
nonzero none = none
nonzero (some p) = if p == 0 then none else some p

unfoldable pub service_target_port : DesiredWorld → Text → Text → Option ℕ → ℕ
service_target_port w service namespace svc_port =
    elim (find (λ s. text_eq s.name service && text_eq s.namespace namespace) (values w.services)) [
      | none ↦ 80
      | some svc ↦
          let chosen : Option ServicePort =
            elim (svc_port >>= λ p. find (λ sp. sp.port == p) svc.ports) [
              | none ↦ first_port svc.ports
              | some sp ↦ some sp
            ] in
          unwrap_or (nonzero (chosen >>= λ sp. some sp.target_port)) 80
    ]
