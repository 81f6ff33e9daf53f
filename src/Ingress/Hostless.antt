-- ===== src/Ingress/Hostless.antt =====
-- An ingress rule that is applied without a host.
use royak.Prelude.{
  ◌>>=◌, All, insert, Text, codes, text_eq_iff, is_empty, ℕ, ◌≡◌, refl, ◌≢◌, false, Option, none,
  some, List, [], ◌∷◌, map, arith,
}
use royak.Prelude.{values}
use royak.World.Yaml.{Yaml, get_at_path, as_text, text_at}
use royak.World.Manifest.{Resource}
use royak.World.Services.{IngressRule}
use royak.World.State.{DesiredWorld}
use royak.Apply.Base.{needs, done}
use royak.Apply.Network.{items_at, ingress_rule, apply_ingress}
use royak.Ingress.{is_for, find_in_rules, find_in_ingresses, find_backend}

abbrev pub star : Text
star = codes "*"

-- The rule of a manifest says no host.
abbrev pub SaysNoHost : Yaml → Type 0
SaysNoHost v = (get_at_path (codes "host" ∷ []) v >>= as_text) ≡ none

host-ingress_rule : (v : Yaml) → SaysNoHost v → (ingress_rule v).host ≡ star
unfolding ingress_rule text_at
host-ingress_rule v h = rw h refl

is_for-star :
    (host : Text) (rule : IngressRule) → host ≢ star → rule.host ≡ star → is_for host rule ≡ false
unfolding is_for is_empty
is_for-star host rule ne e = rw e (ground (arith, text_eq_iff star host))

find_in_rules-hostless :
    (host path : Text) (vs : List Yaml) (next : Option (Text × ℕ))
    → host ≢ star
    → All SaysNoHost vs
    → find_in_rules host path (map ingress_rule vs) next ≡ next
unfolding find_in_rules
find_in_rules-hostless host path [] next ne h = refl
find_in_rules-hostless host path (v ∷ vs) next ne (h, hs) =
    rw (is_for-star host (ingress_rule v) ne (host-ingress_rule v h))
      (find_in_rules-hostless host path vs next ne hs)

-- Where the only ingress is one whose rules say no host, a request finds no backend unless its host
-- is a star.
pub find_backend-apply_ingress :
    (w : DesiredWorld) (r : Resource) (spec : Yaml) (host path : Text)
    → w.ingresses ≡ []
    → r.spec ≡ some spec
    → All SaysNoHost (items_at (codes "rules" ∷ []) spec)
    → host ≢ star
    → find_backend (apply_ingress w r).world host path ≡ none
unfolding find_backend find_in_ingresses apply_ingress needs done insert values
find_backend-apply_ingress w r spec host path empty e h ne =
    rw (e, empty) (find_in_rules-hostless host path (items_at (codes "rules" ∷ []) spec) none ne h)
