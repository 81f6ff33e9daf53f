-- ===== src/Peers/Tests.antt =====
-- A peer's state with one deployment, and a node that has been silent.
use royak.Prelude.{
  unwrap_or, ◌>>=◌, any, lookup, codes, text_eq, text_ne, ◌≢◌, contains, ◌≡◌, refl, true, ◌||◌,
  none, some, [], ◌∷◌, arith,
}
use royak.Peers.{
  send_heartbeats, alive, AsF32, merge_state, deployment_from, configmap_from, object_at,
  check_node_health, check_nodes, demoted,
}
use royak.Peers.Union.{prefer, names, merge_state-union}
use royak.Peers.Health.{IsJudged, check_node_health-send_heartbeats, check_node_health-IsJudged}
use royak.Samples.{plain_node, web_world}
use royak.World.Json.{Json, Number, Fields, Items, get, as_array}
use royak.World.State.{DesiredWorld, new_world}

abbrev no_floats : AsF32
no_floats v = none

abbrev remote_state : Json
remote_state = Json.object (
    Fields.field (codes "deployments")
      (Json.object (
        Fields.field (codes "api")
          (Json.object (Fields.field (codes "replicas") (Json.num (Number.pos_int 2)) Fields.end))
          Fields.end))
      (Fields.field (codes "namespaces")
        (Json.array (Items.cons (Json.str (codes "prod")) Items.nil)) Fields.end))

merge_state-union_example :
    let after = (merge_state no_floats 50 web_world remote_state).1 in
    (lookup (codes "api") after.deployments
      ≡ prefer
          (lookup (codes "api") web_world.deployments)
          (deployment_from (codes "api"))
          (lookup (codes "api") (object_at (codes "deployments") remote_state)))
    × (lookup (codes "api") after.configmaps
        ≡ prefer
            (lookup (codes "api") web_world.configmaps)
            (configmap_from (codes "api"))
            (lookup (codes "api") (object_at (codes "configmaps") remote_state)))
    × (contains after.namespaces (codes "api")
        ≡ contains web_world.namespaces (codes "api")
          || any
              (λ v. names v (codes "api"))
              (unwrap_or (get (codes "namespaces") remote_state >>= as_array) []))
merge_state-union_example = merge_state-union no_floats 50 web_world remote_state (codes "api")

abbrev two_nodes : DesiredWorld
two_nodes = record new_world {
  nodes =
      (codes "a", plain_node (codes "a") (codes "10.0.0.1:6443"))
      ∷ (codes "b", plain_node (codes "b") (codes "10.0.0.2:6443"))
      ∷ [];
}

check_node_health-IsJudged_example :
    IsJudged
      (codes "a")
      1091
      (codes "b")
      (lookup (codes "b") two_nodes.nodes)
      (lookup (codes "b") (check_node_health (codes "a") 1091 two_nodes).1.nodes)
check_node_health-IsJudged_example =
    check_node_health-IsJudged (codes "a") 1091 two_nodes (codes "b")

went_stale :
    lookup (codes "b") (check_node_health (codes "a") 1091 two_nodes).1.nodes
    ≡ some (demoted (plain_node (codes "b") (codes "10.0.0.2:6443")))
unfolding lookup text_eq check_node_health check_nodes
went_stale = refl

not_yet_stale :
    lookup (codes "b") (check_node_health (codes "a") 1090 two_nodes).1.nodes
    ≡ some (plain_node (codes "b") (codes "10.0.0.2:6443"))
unfolding lookup text_eq check_node_health check_nodes
not_yet_stale = refl

b_is_not_a : codes "b" ≢ codes "a"
unfolding text_eq
b_is_not_a = text_ne (codes "b") (codes "a") refl

check_node_health-send_heartbeats_example :
    let sent = record two_nodes {
      nodes =
          send_heartbeats
            (codes "a")
            (λ name. true)
            2000
            two_nodes.nodes
            (codes "a" ∷ codes "b" ∷ []);
    } in
    lookup (codes "b") (check_node_health (codes "a") 2090 sent).1.nodes
    ≡ some (alive 2000 (plain_node (codes "b") (codes "10.0.0.2:6443")))
unfolding lookup text_eq contains
check_node_health-send_heartbeats_example =
    check_node_health-send_heartbeats (codes "a") (λ name. true) 2000 2090 two_nodes
      (codes "a" ∷ codes "b" ∷ []) (codes "b") (plain_node (codes "b") (codes "10.0.0.2:6443")) refl
      refl b_is_not_a refl (omega arith)
