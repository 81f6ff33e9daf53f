-- ===== src/Ingress/Longest.antt =====
-- The live lookup takes the longest path of a rule for the host.
use royak.World.State.{DesiredWorld}
use royak.Prelude.{
  ltb, ltb→lt, not_ltb→le, Bool-cases, All, Nothing, Any, length, Text, starts_with, ℕ, ◌≤◌, ◌≡◌,
  refl, ◌⊎◌, inl, inr, true, false, Option, none, some, List, [], ◌∷◌, ◌++◌, arith,
}
use royak.Prelude.{values}
use royak.World.Services.{IngressPath, IngressRule, StoredIngress}
use royak.Ingress.{
  find_backend, find_in_ingresses, find_in_rules, backend_of, is_longer, best_path, is_for,
}

-- No path of the list is a prefix of the request's path.
abbrev pub NoPrefix : Text → List IngressPath → Type 0
NoPrefix path = All (λ q. starts_with path q.path ≡ false)

-- Every path of the list that is a prefix is at most that long.
abbrev pub AtMost : Text → ℕ → List IngressPath → Type 0
AtMost path n = All (λ q. (starts_with path q.path ≡ false) ⊎ (length q.path ≤ n))

pub record IsLongest (path : Text) (ps : List IngressPath) (p : IngressPath) : Type 0 where
  pub member : Any (λ q. q ≡ p) ps
  pub prefix : starts_with path p.path ≡ true
  pub longest : AtMost path (length p.path) ps

-- The path of a result, if there has to be one.
abbrev LongestOf : Text → List IngressPath → Option IngressPath → Type 0
LongestOf path ps none = Nothing
LongestOf path ps (some p) = IsLongest path ps p

-- The path of a result, or that there is none.
abbrev LongestIn : Text → List IngressPath → Option IngressPath → Type 0
LongestIn path ps none = NoPrefix path ps
LongestIn path ps (some p) = IsLongest path ps p

module _ (path : Text) where
  abbrev Below : IngressPath → IngressPath → Type 0
  Below p q = (starts_with path q.path ≡ false) ⊎ (length q.path ≤ length p.path)

  cons-IsLongest :
      (q p : IngressPath) (ps : List IngressPath)
      → Below p q
      → IsLongest path ps p
      → IsLongest path (q ∷ ps) p
  cons-IsLongest q p ps b h = record {
    member = inr h.member;
    prefix = h.prefix;
    longest = (b, h.longest);
  }

  second-IsLongest :
      (b q p : IngressPath) (ps : List IngressPath)
      → Below p q
      → IsLongest path (b ∷ ps) p
      → IsLongest path (b ∷ q ∷ ps) p
  second-IsLongest b q p ps below h = record {
    member = elim h.member [ inl e ↦ inl e | inr m ↦ inr (inr m) ];
    prefix = h.prefix;
    longest = (h.longest.0, (below, h.longest.1));
  }

  lift :
      (ps qs : List IngressPath) (r : Option IngressPath)
      → LongestOf path ps r
      → ((p : IngressPath) → IsLongest path ps p → IsLongest path qs p)
      → LongestOf path qs r
  lift ps qs none h f = h
  lift ps qs (some p) h f = f p h

  at_most :
      (b p : IngressPath)
      → starts_with path b.path ≡ true
      → Below p b
      → length b.path ≤ length p.path
  at_most b p h (inl e) = absurd (cc (e, h))
  at_most b p h (inr l) = l

  -- With a best path so far, that one competes with the rest.
  seeded-LongestOf :
      (b : IngressPath) (ps : List IngressPath)
      → starts_with path b.path ≡ true
      → LongestOf path (b ∷ ps) (best_path path (some b) ps)
  unfolding best_path is_longer
  seeded-LongestOf b [] h = record {
    member = inl refl;
    prefix = h;
    longest = (inr (omega arith), tt);
  }
  seeded-LongestOf b (ip ∷ ips) h = elim (Bool-cases (starts_with path ip.path)) [
    | inl y ↦ elim (Bool-cases (ltb (length b.path) (length ip.path))) [
      | inl longer ↦
          rw (y, longer)
            (lift (ip ∷ ips) (b ∷ ip ∷ ips) (best_path path (some ip) ips)
              (seeded-LongestOf ip ips y)
              (λ p k.
                cons-IsLongest b p (ip ∷ ips)
                  (inr (
                    omega (
                      arith,
                      at_most ip p y k.longest.0,
                      ltb→lt (length b.path) (length ip.path) longer,
                    )))
                  k))
      | inr short ↦
          rw (y, short)
            (lift (b ∷ ips) (b ∷ ip ∷ ips) (best_path path (some b) ips) (seeded-LongestOf b ips h)
              (λ p k.
                second-IsLongest b ip p ips
                  (inr (
                    omega (
                      arith,
                      at_most b p h k.longest.0,
                      not_ltb→le (length b.path) (length ip.path) short,
                    )))
                  k))
    ]
    | inr n ↦ rw n (
        lift (b ∷ ips) (b ∷ ip ∷ ips) (best_path path (some b) ips) (seeded-LongestOf b ips h)
          (λ p k. second-IsLongest b ip p ips (inl n) k))
  ]

  widen :
      (q : IngressPath) (ps : List IngressPath) (r : Option IngressPath)
      → starts_with path q.path ≡ false
      → LongestIn path ps r
      → LongestIn path (q ∷ ps) r
  widen q ps none e h = (e, h)
  widen q ps (some p) e h = cons-IsLongest q p ps (inl e) h

  found :
      (ps : List IngressPath) (r : Option IngressPath) → LongestOf path ps r → LongestIn path ps r
  found ps none h = elim h [ ]
  found ps (some p) h = h

  best_path-LongestIn : (ps : List IngressPath) → LongestIn path ps (best_path path none ps)
  unfolding best_path is_longer
  best_path-LongestIn [] = tt
  best_path-LongestIn (ip ∷ ips) = elim (Bool-cases (starts_with path ip.path)) [
    | inl y ↦ rw y (found (ip ∷ ips) (best_path path (some ip) ips) (seeded-LongestOf ip ips y))
    | inr n ↦ rw n (widen ip ips (best_path path none ips) n (best_path-LongestIn ips))
  ]

-- A rule that is not for the host, or has no path for the request.
abbrev pub Passes : Text → Text → IngressRule → Type 0
Passes host path rule = (is_for host rule ≡ false) ⊎ NoPrefix path rule.paths

-- One of the rules that is for the host, and its longest path, with the backend of that path.
pub record IsRoute (rules : List IngressRule) (host path service : Text) (port : ℕ) : Type 0 where
  pub rule : IngressRule
  pub chosen : IngressPath
  pub stored : Any (λ r. r ≡ rule) rules
  pub for_host : is_for host rule ≡ true
  pub is_longest : IsLongest path rule.paths chosen
  pub to_service : chosen.service ≡ service
  pub to_port : chosen.port ≡ port

-- A backend is that of a route of the rules; no backend means that every rule passes the request.
abbrev pub Routes : List IngressRule → Text → Text → Option (Text × ℕ) → Type 0
Routes rules host path none = All (Passes host path) rules
Routes rules host path (some (service, port)) = IsRoute rules host path service port

unfoldable pub rules_of : List StoredIngress → List IngressRule
rules_of [] = []
rules_of (i ∷ is) = i.rules ++ rules_of is

module _ (host path : Text) where
  pass-Routes :
      (rule : IngressRule) (rules : List IngressRule) (o : Option (Text × ℕ))
      → Passes host path rule
      → Routes rules host path o
      → Routes (rule ∷ rules) host path o
  pass-Routes rule rules none p h = (p, h)
  pass-Routes rule rules (some (service, port)) p h = record {
    rule = h.rule;
    chosen = h.chosen;
    stored = inr h.stored;
    for_host = h.for_host;
    is_longest = h.is_longest;
    to_service = h.to_service;
    to_port = h.to_port;
  }

  backend_of-Routes :
      (rule : IngressRule) (rules : List IngressRule) (best : Option IngressPath)
      (o : Option (Text × ℕ))
      → is_for host rule ≡ true
      → LongestIn path rule.paths best
      → Routes rules host path o
      → Routes (rule ∷ rules) host path (backend_of best o)
  unfolding backend_of
  backend_of-Routes rule rules none o y l h = pass-Routes rule rules o (inr l) h
  backend_of-Routes rule rules (some p) o y l h = record {
    rule = rule;
    chosen = p;
    stored = inl refl;
    for_host = y;
    is_longest = l;
    to_service = refl;
    to_port = refl;
  }

  find_in_rules-Routes :
      (rules rest : List IngressRule) (next : Option (Text × ℕ))
      → Routes rest host path next
      → Routes (rules ++ rest) host path (find_in_rules host path rules next)
  unfolding find_in_rules
  find_in_rules-Routes [] rest next h = h
  find_in_rules-Routes (rule ∷ rules) rest next h = elim (Bool-cases (is_for host rule)) [
    | inl y ↦ rw y (
        backend_of-Routes rule (rules ++ rest) (best_path path none rule.paths)
          (find_in_rules host path rules next) y (best_path-LongestIn path rule.paths)
          (find_in_rules-Routes rules rest next h))
    | inr n ↦ rw n (
        pass-Routes rule (rules ++ rest) (find_in_rules host path rules next) (inl n)
          (find_in_rules-Routes rules rest next h))
  ]

  find_in_ingresses-Routes :
      (is : List StoredIngress) → Routes (rules_of is) host path (find_in_ingresses host path is)
  unfolding find_in_ingresses rules_of
  find_in_ingresses-Routes [] = tt
  find_in_ingresses-Routes (i ∷ is) =
      find_in_rules-Routes i.rules (rules_of is) _ (find_in_ingresses-Routes is)

-- A backend that is found is that of the longest path, among those that are a prefix of the
-- request's, of a stored rule without a host or for the request's; if none is found, then no stored
-- rule for the host has a path that is a prefix.
pub find_backend-Routes :
    (w : DesiredWorld) (host path : Text)
    → Routes (rules_of (values w.ingresses)) host path (find_backend w host path)
unfolding find_backend
find_backend-Routes w host path = find_in_ingresses-Routes host path (values w.ingresses)
