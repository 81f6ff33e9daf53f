-- ===== src/Apply/Access/Binding.antt =====
-- What a role binding lets its subjects do.
use royak.Prelude.{
  if◌then◌else◌, ◌>>=◌, Any, Map, lookup, insert, lookup-insert, Text, codes, text_eq_iff, is_empty,
  contains, ◌≡◌, refl, sym, ap, ◌∙◌, subst, ◌↔◌, true, false, some, List, [], ◌∷◌, arith,
}
use royak.Apply.Base.{needs, done}
use royak.Apply.Access.{subjects_of, bind_subjects, apply_role_binding}
use royak.Rbac.{check_rbac}
use royak.Rbac.Laws.{Matches, Granted, check_rbac_iff}
use royak.World.Yaml.{get_key_of, as_text}
use royak.World.Cluster.{RbacRole, RbacRule}
use royak.World.Manifest.{Resource}
use royak.World.State.{DesiredWorld}

lookup-bind_subjects :
    (s : Text) (ss : List Text) (rules : List RbacRule) (roles : Map RbacRole)
    → lookup s (bind_subjects ss rules roles)
      ≡ (if contains ss s then some (record { name = s; rules = rules }) else lookup s roles)
unfolding bind_subjects contains
lookup-bind_subjects s [] rules roles = refl
lookup-bind_subjects s (t ∷ ss) rules roles = ground (
  arith,
  lookup-bind_subjects s ss rules (insert t (record { name = t; rules = rules }) roles),
  lookup-insert t s (record { name = t; rules = rules }) roles,
  text_eq_iff t s,
)

occupied : (ss : List Text) (s : Text) → contains ss s ≡ true → is_empty ss ≡ false
unfolding is_empty contains
occupied [] s h = absurd (cc h)
occupied (t ∷ ss) s h = refl

bound_world :
    (w : DesiredWorld) (r : Resource) (n : Text) (role : RbacRole) (s : Text)
    → (r.role_ref >>= get_key_of (codes "name") >>= as_text) ≡ some n
    → lookup n w.rbac_roles ≡ some role
    → contains (subjects_of r) s ≡ true
    → lookup s (apply_role_binding w r).world.rbac_roles
      ≡ some (record { name = s; rules = role.rules })
unfolding apply_role_binding needs done
bound_world w r n role s e f h =
    rw (e, f, occupied (subjects_of r) s h)
      (ground (arith, lookup-bind_subjects s (subjects_of r) role.rules w.rbac_roles))

some-inj : {x y : RbacRole} → some x ≡ some y → x ≡ y
some-inj h = cc h

Granted-iff :
    (w : DesiredWorld) (s : Text) (rules : List RbacRule) (resource verb namespace : Text)
    → lookup s w.rbac_roles ≡ some (record { name = s; rules = rules })
    → Granted w s resource verb namespace ↔ Any (Matches resource verb namespace) rules
unfolding lookup
Granted-iff w s rules resource verb namespace e = (only_by_rule, λ a. Granted.by_rule _ e a)
  where
    only_by_rule : Granted w s resource verb namespace → Any (Matches resource verb namespace) rules
    only_by_rule (Granted.open_by_default none_at_all) =
        absurd (cc (sym e ∙ ap (lookup s) none_at_all))
    only_by_rule (Granted.built_in_admin is_admin missing) = absurd (cc (e, is_admin, missing))
    only_by_rule (Granted.by_rule r found a) =
        subst (λ x. Any (Matches resource verb namespace) x)
          (ap (λ x. x.rules) (some-inj (sym found ∙ e))) a

-- After a binding to a stored role, each of its subjects is allowed exactly what some rule of the
-- role covers.
pub check_rbac-apply_role_binding :
    (w : DesiredWorld) (r : Resource) (n : Text) (role : RbacRole)
    (s resource verb namespace : Text)
    → (r.role_ref >>= get_key_of (codes "name") >>= as_text) ≡ some n
    → lookup n w.rbac_roles ≡ some role
    → contains (subjects_of r) s ≡ true
    → (check_rbac (apply_role_binding w r).world s resource verb namespace ≡ true)
      ↔ Any (Matches resource verb namespace) role.rules
check_rbac-apply_role_binding w r n role s resource verb namespace e f h =
    let after = check_rbac_iff (apply_role_binding w r).world s resource verb namespace in
    let rules =
      Granted-iff (apply_role_binding w r).world s role.rules resource verb namespace
        (bound_world w r n role s e f h) in
    (λ x. rules.0 (after.0 x), λ y. after.1 (rules.1 y))
