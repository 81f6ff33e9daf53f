-- ===== src/Apply/Network.antt =====
-- src/reconcile.rs, `DesiredWorld::apply`: services, ingresses and network policies.
use royak.World.Services.{StoredNetworkPolicy, IngressRule, IngressPath, ServicePort}
use royak.Prelude.{
  if◌then◌else◌, unwrap_or, ◌>>=◌, decimal, length, insert, Text, codes, text_eq, is_empty,
  contains, ℕ, ◌+◌, ◌%◌, ◌^◌, Bool, false, not, ◌&&◌, Option, none, some, List, [], ◌∷◌, ◌++◌, map,
}
use royak.Apply.Base.{Arm, Readers, done, needs, namespace_of, no_spec, join, concat, somes}
use royak.World.Yaml.{Yaml, get_at_path, as_text, as_number, as_flag, as_sequence, text_at}
use royak.World.Manifest.{Resource, ServiceSpec, ServicePortSpec}
use royak.World.State.{DesiredWorld}

abbrev arrow : Text
arrow = 226 ∷ 134 ∷ 146 ∷ []

unfoldable pub service_port : ServicePortSpec → ServicePort
service_port p = record {
  port = p.port;
  target_port = unwrap_or p.target_port p.port;
  protocol = unwrap_or p.protocol (codes "TCP");
  node_port = p.node_port;
}

unfoldable pub as_service : Readers → Resource → Option ServiceSpec
as_service read r =
    if not (text_eq r.kind (codes "Service")) then none else (r.spec >>= read.service_spec)

unfoldable pub apply_service : Readers → Arm
unfolding as_service needs done
apply_service read w r = needs (as_service read r) (codes "Cannot parse Service spec") w (λ svc.
    let name = r.metadata.name in
    let ports = map service_port svc.ports in
    let service_type = unwrap_or svc.service_type (codes "ClusterIP") in
    done
      (codes "service/"
        ++ name
        ++ codes " ("
        ++ service_type
        ++ codes ", ports: "
        ++ join (codes ", ") (map (λ p. decimal p.port ++ arrow ++ decimal p.target_port) ports)
        ++ codes ")")
      (record w {
        services =
            insert name
              (record {
                name = name;
                namespace = namespace_of r;
                selector = unwrap_or svc.selector [];
                ports = ports;
                service_type = service_type;
              })
              w.services;
      }))

-- `ingress_classes.insert(name)` on a HashSet
unfoldable pub apply_ingress_class : Arm
unfolding done
apply_ingress_class w r =
    let name = r.metadata.name in
    done (codes "ingressclass/" ++ name ++ codes " registered (served by the built-in controller)")
      (record w {
        ingress_classes =
            if contains w.ingress_classes name
            then w.ingress_classes
            else w.ingress_classes ++ name ∷ [];
      })

-- The members of a sequence at a path, none where there is no sequence.
unfoldable pub items_at : List Text → Yaml → List Yaml
items_at path v = unwrap_or (get_at_path path v >>= as_sequence) []

unfoldable pub ingress_path : Yaml → IngressPath
ingress_path p = record {
  path = text_at (codes "path" ∷ []) (codes "/") p;
  service = text_at (codes "backend" ∷ codes "service" ∷ codes "name" ∷ []) [] p;
  port =
      unwrap_or
        (get_at_path (codes "backend" ∷ codes "service" ∷ codes "port" ∷ codes "number" ∷ []) p
          >>= as_number)
        80
      % 2 ^ 16;
}

unfoldable pub ingress_rule : Yaml → IngressRule
unfolding ingress_path items_at
ingress_rule rule = record {
  host = text_at (codes "host" ∷ []) (codes "*") rule;
  paths = map ingress_path (items_at (codes "http" ∷ codes "paths" ∷ []) rule);
}

unfoldable pub total_paths : List IngressRule → ℕ
total_paths [] = 0
total_paths (r ∷ rs) = length r.paths + total_paths rs

unfoldable pub class_note : DesiredWorld → Option Text → Text
class_note w none = []
class_note w (some c) =
    if not (contains w.ingress_classes c) && not (text_eq c (codes "royak"))
    then codes ", class=" ++ c ++ codes " (served by the built-in controller)"
    else codes ", class=" ++ c

unfoldable pub apply_ingress : Arm
unfolding needs done
apply_ingress w r = needs r.spec no_spec w (λ spec.
    let name = r.metadata.name in
    let rules = map ingress_rule (items_at (codes "rules" ∷ []) spec) in
    let ingress_class = get_at_path (codes "ingressClassName" ∷ []) spec >>= as_text in
    done
      (codes "ingress/"
        ++ name
        ++ codes " applied ("
        ++ decimal (total_paths rules)
        ++ codes " routes"
        ++ class_note w ingress_class
        ++ codes ")")
      (record w {
        ingresses =
            insert name
              (record {
                name = name;
                namespace = namespace_of r;
                rules = rules;
                ingress_class = ingress_class;
              })
              w.ingresses;
      }))

abbrev app_path : List Text
app_path = codes "podSelector" ∷ codes "matchLabels" ∷ codes "app" ∷ []

unfoldable pub app_of : Yaml → List Text
app_of v = elim (get_at_path app_path v >>= as_text) [
  | none ↦ []
  | some app ↦ (codes "app:" ++ app) ∷ []
]

module _ (read : Readers) where
  -- A source of traffic: its namespace labels, as trimmed YAML, and its application.
  unfoldable pub source_of : (Text → Text) → Yaml → List Text
  unfolding app_of
  source_of trim src =
      elim (get_at_path (codes "namespaceSelector" ∷ codes "matchLabels" ∷ []) src) [
        | none ↦ app_of src
        | some labels ↦ (codes "ns:" ++ trim (read.show_yaml labels)) ∷ app_of src
      ]

-- `port as u16` of each port of each rule
unfoldable pub ports_at : Text → Yaml → List ℕ
ports_at direction spec = somes (
    concat (
      map (λ rule. map port_of (items_at (codes "ports" ∷ []) rule))
        (items_at (direction ∷ []) spec)))
  where
    port_of : Yaml → Option ℕ
    port_of p = get_at_path (codes "port" ∷ []) p >>= as_number >>= λ n. some (n % 2 ^ 16)

unfoldable pub flag_at : Text → Yaml → Bool
flag_at k spec = unwrap_or (get_at_path (k ∷ []) spec >>= as_flag) false

unfoldable pub policy_from : Readers → (Text → Text) → Resource → Yaml → StoredNetworkPolicy
policy_from read trim r spec = record {
  name = r.metadata.name;
  namespace = namespace_of r;
  pod_selector = text_at app_path (codes "*") spec;
  ingress_allow = concat (
      concat (
        map (λ rule. map (source_of read trim) (items_at (codes "from" ∷ []) rule))
          (items_at (codes "ingress" ∷ []) spec)));
  egress_allow = concat (
      concat (
        map (λ rule. map app_of (items_at (codes "to" ∷ []) rule))
          (items_at (codes "egress" ∷ []) spec)));
  ingress_ports = ports_at (codes "ingress") spec;
  egress_ports = ports_at (codes "egress") spec;
  internal = flag_at (codes "internal") spec;
  mtls_required = flag_at (codes "mtls") spec;
  deny_all = flag_at (codes "denyAll") spec;
}

unfoldable pub features : StoredNetworkPolicy → Text
features p =
    let names =
      (if p.internal then codes "internal" ∷ [] else [])
      ++ (if p.mtls_required then codes "mTLS" ∷ [] else [])
      ++ (if p.deny_all then codes "deny-all" ∷ [] else []) in
    if is_empty names then [] else codes " [" ++ join (codes ", ") names ++ codes "]"

-- The trimming of the printed labels is an argument.
unfoldable pub apply_network_policy : Readers → (Text → Text) → Arm
unfolding needs done
apply_network_policy read trim w r = needs r.spec no_spec w (λ spec.
    let name = r.metadata.name in
    let policy = policy_from read trim r spec in
    done
      (codes "networkpolicy/"
        ++ name
        ++ codes " applied (selector: "
        ++ policy.pod_selector
        ++ codes ", "
        ++ decimal (length policy.ingress_allow)
        ++ codes " ingress, "
        ++ decimal (length policy.egress_allow)
        ++ codes " egress rules)"
        ++ features policy)
      (record w { network_policies = insert name policy w.network_policies }))
