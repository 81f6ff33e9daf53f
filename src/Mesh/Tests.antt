-- ===== src/Mesh/Tests.antt =====
-- A service of three replicas, two of them on a peer.
use royak.Prelude.{
  decimal, all, find, lookup, Text, codes, text_eq, is_empty, ◌≡◌, refl, [], ◌∷◌, ◌++◌, arith,
}
use royak.Prelude.{values}
use royak.Mesh.{
  Endpoint, Router, lookup_pod_node, node_name_for_addr, pod_of, scan, route_to, resolve,
}
use royak.Mesh.Routing.{Routed, resolve-Routed}
use royak.Mesh.Head.{parse_pod_port, inject_handoff, crlf, header_value, split_once}
use royak.Mesh.Head.Handoff.{literal-IsLine, parse_pod_port-inject_handoff}
use royak.Samples.{plain_deployment, plain_service, plain_node}
use royak.World.State.{DesiredWorld, new_world}

abbrev peer : Text
peer = codes "10.0.0.2:6443"

abbrev shared_world : DesiredWorld
shared_world = record new_world {
  deployments = (codes "web", plain_deployment (codes "web") 3) ∷ [];
  services = (codes "web-svc", plain_service (codes "web-svc") (codes "web")) ∷ [];
  nodes = (codes "a", plain_node (codes "a") (codes "10.0.0.1:6443")) ∷ [];
}

abbrev router : Router
router = record {
  world = shared_world;
  local_node = codes "a";
  peer_pods = (peer, codes "rk-web-1") ∷ (peer, codes "rk-web-2") ∷ [];
}

third_is_local :
    resolve router (codes "web-svc") (codes "default") ≡ Endpoint.local_pod (codes "rk-web-3")
unfolding resolve scan lookup_pod_node pod_of find values lookup text_eq decimal route_to
    node_name_for_addr
third_is_local = refl

resolve-Routed_example :
    Routed router (codes "web") 3 (resolve router (codes "web-svc") (codes "default"))
unfolding find values lookup text_eq
resolve-Routed_example =
    resolve-Routed router (codes "web-svc") (codes "default") (codes "web")
      (plain_service (codes "web-svc") (codes "web")) (plain_deployment (codes "web") 3) 2 refl refl
      refl refl

abbrev request : Text
request = codes "GET / HTTP/1.1"

abbrev request_rest : Text
request_rest = codes "Host: web-svc" ++ crlf ++ crlf

parse_pod_port-inject_handoff_example :
    parse_pod_port (inject_handoff (request ++ crlf ++ request_rest) (codes "rk-a") 8080) ≡ 8080
unfolding all header_value split_once is_empty
parse_pod_port-inject_handoff_example =
    parse_pod_port-inject_handoff request request_rest (codes "rk-a") 8080
      (literal-IsLine request refl) refl refl (literal-IsLine (codes "rk-a") refl) (omega arith)
      (omega arith)
