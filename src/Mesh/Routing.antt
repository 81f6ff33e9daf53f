-- ===== src/Mesh/Routing.antt =====
-- Where the mesh sends a request.
use royak.World.Workloads.{StoredDeployment}
use royak.World.Services.{StoredService}
use royak.Prelude.{
  ◌==◌, ==_iff, Bool-cases, Option-cases, is_some, unwrap_or, find, lookup, Text, codes, text_eq, ℕ,
  zero, suc, ◌+◌, ◌≤◌, ◌<◌, max, ◌≡◌, refl, sym, ap, ◌∙◌, subst, ◌⊎◌, inl, inr, true, ◌&&◌, Option,
  none, some, arith,
}
use royak.Prelude.{values}
use royak.Mesh.{
  Endpoint, Router, lookup_pod_node, node_name_for_addr, pod_of, scan, route_to, route, resolve,
}

from_next {ℓ} : (i : ℕ) (P : ℕ → Type ℓ) → P i → (j : ℕ) → i ≤ j → (suc i ≤ j → P j) → P j
from_next i P p j l f = elim (Bool-cases (i == j)) [
  | inl e ↦ subst P ((==_iff i j).0 e) p
  | inr e ↦ f (ground arith)
]

-- A pod of the replicas from `i` on that is on no peer, with all before it on peers.
pub record IsFirstLocal (r : Router) (deployment : Text) (i left k : ℕ) : Type 0 where
  pub lower : i ≤ k
  pub upper : k < i + left
  pub here : lookup_pod_node r (pod_of deployment k) ≡ none
  pub before : (j : ℕ) → i ≤ j → j < k → is_some (lookup_pod_node r (pod_of deployment j)) ≡ true

abbrev keep_first : Option (Text × Text) → Text → Text → Option (Text × Text)
keep_first none pod addr = some (pod, addr)
keep_first (some p) pod addr = some p

module _ (r : Router) (deployment : Text) where
  scan-local :
      (left i : ℕ) (first : Option (Text × Text))
      → lookup_pod_node r (pod_of deployment i) ≡ none
      → scan r deployment (suc left) i first ≡ (some (pod_of deployment i), first)
  unfolding scan
  scan-local left i first e = rw (e, scan) refl

  scan-remote :
      (left i : ℕ) (first : Option (Text × Text)) {addr : Text}
      → lookup_pod_node r (pod_of deployment i) ≡ some addr
      → scan r deployment (suc left) i first
        ≡ scan r deployment left (suc i) (keep_first first (pod_of deployment i) addr)
  unfolding scan
  scan-remote left i none e = rw (e, scan) refl
  scan-remote left i (some p) e = rw (e, scan) refl

  -- The scan finds the first local replica, if one is local.
  scan-found :
      (left i : ℕ) (first : Option (Text × Text))
      → ((k : ℕ) × IsFirstLocal r deployment i left k
          × ((scan r deployment left i first).0 ≡ some (pod_of deployment k)))
        ⊎ (((j : ℕ)
              → i ≤ j
              → j < i + left
              → is_some (lookup_pod_node r (pod_of deployment j)) ≡ true)
            × ((scan r deployment left i first).0 ≡ none))
  unfolding scan
  scan-found zero i first = inr (λ j h k. absurd (omega arith), refl)
  scan-found (suc left) i first = elim (Option-cases (lookup_pod_node r (pod_of deployment i))) [
    | inl e ↦ inl (
      i,
      record {
        lower = omega arith;
        upper = omega arith;
        here = e;
        before = λ j h k. absurd (omega arith);
      },
      ap (λ s. s.0) (scan-local left i first e),
    )
    | inr (addr, e) ↦
        let step = ap (λ s. s.0) (scan-remote left i first e) in
        let on_peer : is_some (lookup_pod_node r (pod_of deployment i)) ≡ true = ap is_some e in
        elim (scan-found left (suc i) (keep_first first (pod_of deployment i) addr)) [
          | inl (k, h, s) ↦ inl (
            k,
            record {
              lower = omega (arith, h.lower);
              upper = omega (arith, h.upper);
              here = h.here;
              before = λ j l u.
                  from_next i (λ n. is_some (lookup_pod_node r (pod_of deployment n)) ≡ true)
                    on_peer j l (λ m. h.before j m u);
            },
            step ∙ s,
          )
          | inr (h, s) ↦ inr (
            λ j l u.
                from_next i (λ n. is_some (lookup_pod_node r (pod_of deployment n)) ≡ true) on_peer
                  j l (λ m. h j m (omega arith)),
            step ∙ s,
          )
        ]
  ]

  -- What is kept on the way is the first remote pod.
  scan-first : (left i : ℕ) (p : Text × Text) → (scan r deployment left i (some p)).1 ≡ some p
  unfolding scan
  scan-first zero i p = refl
  scan-first (suc left) i p = elim (Option-cases (lookup_pod_node r (pod_of deployment i))) [
    | inl e ↦ ap (λ s. s.1) (scan-local left i (some p) e)
    | inr (addr, e) ↦ ap (λ s. s.1) (scan-remote left i (some p) e) ∙ scan-first left (suc i) p
  ]

-- A deployment with replicas is sent to a local pod, the first that is on no peer, or, where every
-- replica is on a peer, to replica 1 on its peer.
pub data Routed (r : Router) (deployment : Text) (n : ℕ) : Endpoint → Type 0 where
  stays :
      (k : ℕ)
      → IsFirstLocal r deployment 1 n k
      → Routed r deployment n (Endpoint.local_pod (pod_of deployment k))
  leaves :
      (addr : Text)
      → ((j : ℕ) → 1 ≤ j → j ≤ n → is_some (lookup_pod_node r (pod_of deployment j)) ≡ true)
      → lookup_pod_node r (pod_of deployment 1) ≡ some addr
      → Routed r deployment n
          (Endpoint.remote (unwrap_or (node_name_for_addr r addr) addr) addr (pod_of deployment 1))

route_to-local :
    (r : Router) (deployment : Text) (s : Option Text × Option (Text × Text)) (pod : Text)
    → s.0 ≡ some pod
    → route_to r deployment s ≡ Endpoint.local_pod pod
unfolding route_to
route_to-local r deployment (some p, first) pod e = cc e
route_to-local r deployment (none, first) pod e = absurd (cc e)

route_to-remote :
    (r : Router) (deployment : Text) (s : Option Text × Option (Text × Text)) (pod addr : Text)
    → s.0 ≡ none
    → s.1 ≡ some (pod, addr)
    → route_to r deployment s
      ≡ Endpoint.remote (unwrap_or (node_name_for_addr r addr) addr) addr pod
unfolding route_to
route_to-remote r deployment (some p, first) pod addr e f = absurd (cc e)
route_to-remote r deployment (none, none) pod addr e f = absurd (cc f)
route_to-remote r deployment (none, some (p, a)) pod addr e f = cc f

route_to-Routed :
    (r : Router) (deployment : Text) (n : ℕ)
    → Routed r deployment (suc n) (route_to r deployment (scan r deployment (suc n) 1 none))
unfolding route_to
route_to-Routed r deployment n =
    let s = scan r deployment (suc n) 1 none in
    elim (scan-found r deployment (suc n) 1 none) [
      | inl (k, h, e) ↦
          subst (Routed r deployment (suc n))
            (sym (route_to-local r deployment s (pod_of deployment k) e)) (Routed.stays k h)
      | inr (h, e) ↦ elim (Option-cases (lookup_pod_node r (pod_of deployment 1))) [
        | inl f ↦ absurd (cc (f, h 1 (omega arith) (omega arith)))
        | inr (addr, f) ↦
            let pod = pod_of deployment 1 in
            let kept =
              ap (λ t. t.1) (scan-remote r deployment n 1 none f)
              ∙ scan-first r deployment n 2 (pod, addr) in
            subst (Routed r deployment (suc n))
              (sym (route_to-remote r deployment s pod addr e kept))
              (Routed.leaves addr (λ j l u. h j l (omega arith)) f)
      ]
    ]

route-positive :
    (r : Router) (d : StoredDeployment) (n : ℕ)
    → d.replicas ≡ suc n
    → route r d ≡ route_to r d.name (scan r d.name (suc n) 1 none)
unfolding route
route-positive r d n h =
    let most : max d.replicas 1 ≡ suc n = omega arith in rw (most, route) (ground arith)

resolve-route :
    (r : Router) (service_name namespace app : Text) (svc : StoredService) (d : StoredDeployment)
    → find
        (λ s. text_eq s.name service_name && text_eq s.namespace namespace)
        (values r.world.services)
      ≡ some svc
    → lookup (codes "app") svc.selector ≡ some app
    → find (λ e. text_eq e.name app && text_eq e.namespace namespace) (values r.world.deployments)
      ≡ some d
    → resolve r service_name namespace ≡ route r d
unfolding resolve
resolve-route r service_name namespace app svc d e f g = rw (e, resolve) (rw f (rw g refl))

-- `resolve` on a service of the namespace that selects a deployment with replicas stays on this
-- node if any replica is on no peer, at the first such replica, and goes to replica 1 on its peer
-- only if every replica is on a peer.
pub resolve-Routed :
    (r : Router) (service_name namespace app : Text) (svc : StoredService) (d : StoredDeployment)
    (n : ℕ)
    → find
        (λ s. text_eq s.name service_name && text_eq s.namespace namespace)
        (values r.world.services)
      ≡ some svc
    → lookup (codes "app") svc.selector ≡ some app
    → find (λ e. text_eq e.name app && text_eq e.namespace namespace) (values r.world.deployments)
      ≡ some d
    → d.replicas ≡ suc n
    → Routed r d.name d.replicas (resolve r service_name namespace)
resolve-Routed r service_name namespace app svc d n e f g h =
    let path = resolve-route r service_name namespace app svc d e f g ∙ route-positive r d n h in
    rw (h, path) (route_to-Routed r d.name n)
