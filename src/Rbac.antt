-- ===== src/Rbac.antt =====
-- src/reconcile.rs, `DesiredWorld::check_rbac`: which stated role may do what.
pub mod Laws
mod Tests
use royak.Prelude.{
  Bool, true, false, not, ◌&&◌, ◌||◌, Option, none, some, Text, codes, text_eq, is_empty, lookup,
  contains_key, any, if◌then◌else◌,
}
use royak.World.Cluster.{RbacRule, RbacRole}
use royak.World.State.{DesiredWorld}

abbrev pub star : Text
star = codes "*"

abbrev pub admin : Text
admin = codes "admin"

rule_allows : Text → Text → Text → RbacRule → Bool
rule_allows resource verb namespace rule =
    let res_ok = any (λ r. text_eq r star || text_eq r resource) rule.resources in
    let verb_ok = any (λ v. text_eq v star || text_eq v verb) rule.verbs in
    let ns_ok = any (λ n. text_eq n star || text_eq n namespace) rule.namespaces in
    res_ok && verb_ok && ns_ok

role_allows : Text → Text → Text → Option RbacRole → Bool
role_allows resource verb namespace (some r) = any (rule_allows resource verb namespace) r.rules
role_allows resource verb namespace none = false

unfoldable pub check_rbac : DesiredWorld → Text → Text → Text → Text → Bool
unfolding role_allows rule_allows
check_rbac w role resource verb namespace =
    if is_empty w.rbac_roles
    then true
    else if text_eq role admin && not (contains_key admin w.rbac_roles)
    then true
    else role_allows resource verb namespace (lookup role w.rbac_roles)
