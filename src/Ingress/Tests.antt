-- ===== src/Ingress/Tests.antt =====
-- Routes of a shop.
use royak.Prelude.{
  Any, all, filter, Text, codes, text_eq, is_empty, starts_with, ◌-◌, ◌/◌, ◌≡◌, refl, none, some,
  [], ◌∷◌, arith,
}
use royak.Prelude.{values}
use royak.World.Yaml.{
  Yaml, Values, Pairs, get_at_path, get_key_of, get_pair, as_mapping, as_sequence, as_text,
  to_pairs, to_yamls,
}
use royak.World.Manifest.{Resource}
use royak.World.Services.{IngressPath, IngressRule, StoredIngress}
use royak.World.State.{DesiredWorld, new_world}
use royak.Apply.Network.{apply_ingress, items_at}
use royak.Ingress.{
  Backend, ResolvedRoute, last_longest, find_backend, find_in_ingresses, find_in_rules, best_path,
  is_longer, is_for, backend_of, trim_slashes, before_last_colon,
}
use royak.Ingress.Longest.{Routes, rules_of, find_backend-Routes}
use royak.Ingress.Hostless.{find_backend-apply_ingress}
use royak.Ingress.RoundRobin.{turns, table_route, snapshot_backend-turns}

abbrev front : IngressPath
front = record { path = codes "/"; service = codes "web"; port = 80 }

abbrev api : IngressPath
api = record { path = codes "/api"; service = codes "orders"; port = 8080 }

abbrev shop_rule : IngressRule
shop_rule = record { host = codes "shop"; paths = front ∷ api ∷ [] }

abbrev shop : StoredIngress
shop = record {
  name = codes "shop";
  namespace = codes "default";
  rules = shop_rule ∷ [];
  ingress_class = none;
}

abbrev shop_world : DesiredWorld
shop_world = record new_world { ingresses = (codes "shop", shop) ∷ [] }

longer_path_wins :
    find_backend shop_world (codes "shop") (codes "/api/v1") ≡ some (codes "orders", 8080)
unfolding find_backend find_in_ingresses find_in_rules best_path is_longer is_for backend_of
    starts_with text_eq royak.Prelude.values is_empty
longer_path_wins = refl

find_backend-Routes_example :
    Routes
      (rules_of (values shop_world.ingresses))
      (codes "shop")
      (codes "/api/v1")
      (find_backend shop_world (codes "shop") (codes "/api/v1"))
find_backend-Routes_example = find_backend-Routes shop_world (codes "shop") (codes "/api/v1")

trimmed : trim_slashes (codes "//rk-web-1") ≡ codes "rk-web-1"
unfolding trim_slashes
trimmed = refl

host_part : before_last_colon (codes "10.0.0.2:6443") ≡ some (codes "10.0.0.2")
unfolding before_last_colon
host_part = refl

abbrev any_host : Yaml
any_host = Yaml.mapping (Pairs.pair (Yaml.str (codes "http")) Yaml.null Pairs.end)

abbrev any_host_spec : Yaml
any_host_spec = Yaml.mapping (
    Pairs.pair (Yaml.str (codes "rules")) (Yaml.sequence (Values.cons any_host Values.nil))
      Pairs.end)

abbrev any_host_ingress : Resource
any_host_ingress = record {
  kind = codes "Ingress";
  metadata = record { name = codes "all"; namespace = none };
  spec = some any_host_spec;
  values = none;
  string_data = none;
  rules = none;
  subjects = none;
  role_ref = none;
}

find_backend-apply_ingress_example :
    find_backend (apply_ingress new_world any_host_ingress).world (codes "shop") (codes "/") ≡ none
unfolding new_world items_at get_at_path get_key_of get_pair as_mapping as_sequence as_text to_pairs
    to_yamls text_eq
find_backend-apply_ingress_example =
    find_backend-apply_ingress new_world any_host_ingress any_host_spec (codes "shop") (codes "/")
      refl refl (refl, tt) (λ e. absurd (cc e))

abbrev pod : Text → Backend
pod ip = record { ip = ip; port = 80; target_pod = []; pod_port = 80 }

abbrev shop_route : ResolvedRoute
shop_route = record {
  host = codes "shop";
  path = codes "/";
  backends = pod (codes "a") ∷ pod (codes "b") ∷ [];
}

snapshot_backend-turns_example :
    Any
      (λ o. o ≡ some (pod (codes "a")))
      (turns 2 (shop_route ∷ []) 7 (codes "shop") (codes "/cart"))
unfolding table_route last_longest filter starts_with text_eq is_empty
snapshot_backend-turns_example =
    snapshot_backend-turns (shop_route ∷ []) (codes "shop") (codes "/cart") shop_route 0 7 refl
      (omega arith) (omega arith)
