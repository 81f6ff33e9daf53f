-- ===== src/Rbac/Laws.antt =====
-- What `check_rbac` decides.
use royak.Prelude.{
  and_iff, or_iff, ◌≡◌, refl, ◌↔◌, ◌⊎◌, inl, inr, true, ◌||◌, none, some, List, [], ◌∷◌, arith,
  Text, text_eq, text_eq_iff, is_empty, lookup, any, any_iff, Any, Bool-cases, Option-cases,
}
use royak.World.Cluster.{RbacRule, RbacRole}
use royak.World.State.{DesiredWorld}
use royak.Rbac.{star, admin, rule_allows, role_allows, check_rbac}

-- A list of names covers a name by naming it, or by the star.
abbrev pub Covers : List Text → Text → Type 0
Covers names x = Any (λ n. (n ≡ star) ⊎ (n ≡ x)) names

pub record Matches (resource verb namespace : Text) (rule : RbacRule) : Type 0 where
  pub resources : Covers rule.resources resource
  pub verbs : Covers rule.verbs verb
  pub namespaces : Covers rule.namespaces namespace

-- The policy: open while there are no roles, an administrator that nobody defined, or a rule of the
-- stated role that covers the request.
pub data Granted (w : DesiredWorld) (role resource verb namespace : Text) : Type 0 where
  open_by_default : w.rbac_roles ≡ [] → Granted w role resource verb namespace
  built_in_admin :
      role ≡ admin → lookup admin w.rbac_roles ≡ none → Granted w role resource verb namespace
  by_rule :
      (r : RbacRole)
      → lookup role w.rbac_roles ≡ some r
      → Any (Matches resource verb namespace) r.rules
      → Granted w role resource verb namespace

Covers-iff :
    (names : List Text) (x : Text)
    → (any (λ n. text_eq n star || text_eq n x) names ≡ true) ↔ Covers names x
Covers-iff names x = any_iff _ _ names (λ n. or_iff (text_eq_iff n star) (text_eq_iff n x))

Matches-iff :
    (resource verb namespace : Text) (rule : RbacRule)
    → (rule_allows resource verb namespace rule ≡ true) ↔ Matches resource verb namespace rule
unfolding rule_allows
Matches-iff resource verb namespace rule = (
  λ h. record { resources = (all.0 h).0.0; verbs = (all.0 h).0.1; namespaces = (all.0 h).1 },
  λ m. all.1 ((m.resources, m.verbs), m.namespaces),
)
  where
    all : (rule_allows resource verb namespace rule ≡ true) ↔ (
        (Covers rule.resources resource × Covers rule.verbs verb)
        × Covers rule.namespaces namespace)
    all =
        and_iff (and_iff (Covers-iff rule.resources resource) (Covers-iff rule.verbs verb))
          (Covers-iff rule.namespaces namespace)

role_allows_iff :
    (resource verb namespace : Text) (r : RbacRole)
    → (role_allows resource verb namespace (some r) ≡ true)
      ↔ Any (Matches resource verb namespace) r.rules
unfolding role_allows
role_allows_iff resource verb namespace r =
    any_iff _ _ r.rules (Matches-iff resource verb namespace)

is_empty-nil {ℓ} : {A : Type ℓ} (xs : List A) → is_empty xs ≡ true → xs ≡ []
unfolding is_empty
is_empty-nil [] h = refl
is_empty-nil (x ∷ xs) h = absurd (cc h)

module _ (w : DesiredWorld) (role resource verb namespace : Text) where
  sound : check_rbac w role resource verb namespace ≡ true → Granted w role resource verb namespace
  unfolding check_rbac
  sound h = elim (Bool-cases (is_empty w.rbac_roles)) [
    | inl e ↦ Granted.open_by_default (is_empty-nil w.rbac_roles e)
    | inr e ↦ elim (Option-cases (lookup role w.rbac_roles)) [
      | inr (r, found) ↦
          Granted.by_rule r found
            ((role_allows_iff resource verb namespace r).0 (ground (arith, text_eq_iff role admin)))
      | inl missing ↦
          Granted.built_in_admin (ground (arith, text_eq_iff role admin))
            (ground (arith, text_eq_iff role admin))
    ]
  ]

  complete :
      Granted w role resource verb namespace → check_rbac w role resource verb namespace ≡ true
  unfolding check_rbac is_empty
  complete (Granted.open_by_default e) = rw e refl
  complete (Granted.built_in_admin e missing) = ground (arith, text_eq_iff role admin)
  complete (Granted.by_rule r found covered) =
      let t = (role_allows_iff resource verb namespace r).1 covered in ground arith

-- The check answers yes for exactly the requests that the policy grants.
pub check_rbac_iff :
    (w : DesiredWorld) (role resource verb namespace : Text)
    → (check_rbac w role resource verb namespace ≡ true) ↔ Granted w role resource verb namespace
check_rbac_iff w role resource verb namespace =
    (sound w role resource verb namespace, complete w role resource verb namespace)
