-- ===== src/Apply/Access.antt =====
-- src/reconcile.rs, `DesiredWorld::apply`: roles, bindings, service accounts and webhooks.
pub mod Binding
use royak.World.Cluster.{RbacRole, RbacRule}
use royak.Prelude.{
  if◌then◌else◌, unwrap_or, ◌>>=◌, decimal, length, Map, lookup, insert, Text, codes, text_eq,
  is_empty, Option, none, some, List, [], ◌∷◌, ◌++◌, map,
}
use royak.Apply.Base.{Arm, done, failed, needs, namespace_of, no_spec, concat, somes}
use royak.World.Yaml.{Yaml, get_key_of, get_at_path, as_text, as_sequence, texts_of}
use royak.World.Manifest.{Resource}
use royak.World.State.{DesiredWorld}

abbrev everything : List Text
everything = codes "*" ∷ []

-- `get_strings`: all where the key is missing or no sequence.
unfoldable pub get_strings : Text → Yaml → List Text
get_strings key r =
    unwrap_or (get_key_of key r >>= as_sequence >>= λ vs. some (texts_of vs)) everything

unfoldable pub scoped_rule : Text → Yaml → RbacRule
unfolding get_strings
scoped_rule namespace r = record {
  resources = get_strings (codes "resources") r;
  verbs = get_strings (codes "verbs") r;
  namespaces = namespace ∷ [];
}

unfoldable pub own_rule : Yaml → RbacRule
unfolding get_strings
own_rule r = record {
  resources = get_strings (codes "resources") r;
  verbs = get_strings (codes "verbs") r;
  namespaces = get_strings (codes "namespaces") r;
}

unfoldable pub scope_of : Resource → Text
scope_of r = if text_eq r.kind (codes "ClusterRole") then codes "*" else namespace_of r

abbrev store_role : Text → List RbacRule → DesiredWorld → DesiredWorld
store_role name rules w = record w {
  rbac_roles = insert name (record { name = name; rules = rules }) w.rbac_roles;
}

-- `kind.to_lowercase()`, of the two kinds that come here.
abbrev lower_kind : Resource → Text
lower_kind r = if text_eq r.kind (codes "ClusterRole") then codes "clusterrole" else codes "role"

unfoldable pub apply_role : Arm
unfolding needs done
apply_role w r =
    needs (r.rules >>= as_sequence) (codes "Role needs top-level rules") w (λ rules_val.
      let name = r.metadata.name in
      let rules = map (scoped_rule (scope_of r)) rules_val in
      done
        (lower_kind r
          ++ codes "/"
          ++ name
          ++ codes " configured ("
          ++ decimal (length rules)
          ++ codes " rules, ns="
          ++ scope_of r
          ++ codes ")")
        (store_role name rules w))

unfoldable pub subjects_of : Resource → List Text
subjects_of r =
    somes (
      map (λ s. get_key_of (codes "name") s >>= as_text)
        (unwrap_or (r.subjects >>= as_sequence) []))

unfoldable pub bind_subjects : List Text → List RbacRule → Map RbacRole → Map RbacRole
bind_subjects [] rules roles = roles
bind_subjects (s ∷ ss) rules roles =
    bind_subjects ss rules (insert s (record { name = s; rules = rules }) roles)

unfoldable pub apply_role_binding : Arm
unfolding needs done failed
apply_role_binding w r =
    needs (r.role_ref >>= get_key_of (codes "name") >>= as_text)
      (codes "RoleBinding needs roleRef.name") w
      (λ role_name.
        needs (lookup role_name w.rbac_roles)
          (codes "roleRef '"
            ++ role_name
            ++ codes "' not found "
            ++ (226 ∷ 128 ∷ 148 ∷ [])
            ++ codes " apply the Role first")
          w
          (λ role.
            let subjects = subjects_of r in
            if is_empty subjects
            then failed (codes "RoleBinding needs at least one subject") w
            else done
                (codes "rolebinding/"
                  ++ r.metadata.name
                  ++ codes ": "
                  ++ decimal (length subjects)
                  ++ codes " subject(s) bound to role '"
                  ++ role_name
                  ++ codes "'")
                (record w { rbac_roles = bind_subjects subjects role.rules w.rbac_roles })))

unfoldable pub apply_service_account : Arm
unfolding done
apply_service_account w r =
    done
      (codes "serviceaccount/"
        ++ r.metadata.name
        ++ codes " registered (use as RBAC subject via RoleBinding)")
      w

unfoldable pub apply_rbac_role : Arm
unfolding needs done
apply_rbac_role w r = needs r.spec no_spec w (λ sv.
    needs (get_key_of (codes "rules") sv >>= as_sequence) (codes "RbacRole needs spec.rules") w
      (λ rules_val.
        let name = r.metadata.name in
        let rules = map own_rule rules_val in
        done
          (codes "rbac/"
            ++ name
            ++ codes " configured ("
            ++ decimal (length rules)
            ++ codes " rules)")
          (store_role name rules w)))

abbrev pub head_of : List Yaml → Option Yaml
head_of [] = none
head_of (v ∷ vs) = some v

unfoldable pub webhook_kinds : Yaml → List Text
webhook_kinds first = elim (get_key_of (codes "rules") first >>= as_sequence) [
  | none ↦ everything
  | some rules ↦ concat (
      map
        (λ r.
          unwrap_or (get_key_of (codes "resources") r >>= as_sequence >>= λ vs. some (texts_of vs))
            [])
        rules)
]

unfoldable pub apply_webhook : Arm
unfolding needs done
apply_webhook w r = needs r.spec no_spec w (λ sv.
    needs (get_key_of (codes "webhooks") sv >>= as_sequence) (codes "needs spec.webhooks") w
      (λ hooks. needs (head_of hooks) (codes "needs at least one webhook") w (λ first.
        needs (get_at_path (codes "clientConfig" ∷ codes "url" ∷ []) first >>= as_text)
          (codes "webhook needs clientConfig.url (Royak calls the URL directly)") w
          (λ url.
            let name = r.metadata.name in
            done
              (codes "validatingwebhookconfiguration/"
                ++ name
                ++ codes " registered ("
                ++ decimal (length (webhook_kinds first))
                ++ codes " kinds)")
              (record w {
                admission_webhooks =
                    insert name
                      (record {
                        name = name;
                        url = url;
                        kinds = webhook_kinds first;
                        failure_policy =
                            unwrap_or (get_key_of (codes "failurePolicy") first >>= as_text)
                              (codes "Fail");
                      })
                      w.admission_webhooks;
              })))))
