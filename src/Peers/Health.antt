-- ===== src/Peers/Health.antt =====
-- Which nodes are marked NotReady.
use royak.World.Cluster.{ClusterNode, NodeStatus}
use royak.Prelude.{
  ltb, if◌then◌else◌, Bool-cases, Map, lookup, modify, lookup-modify, Text, text_eq, text_eq_sound,
  text_eq_iff, text_ne, text_eq_refl, contains, ℕ, ◌+◌, ◌-◌, ◌≤◌, ◌<◌, ◌≡◌, ◌≢◌, ◌↔◌, refl, ap, ◌∙◌,
  subst, inl, inr, Bool, true, false, not, ◌&&◌, Option, none, some, List, [], ◌∷◌, arith,
}
use mathlib.Core.Option
use royak.Peers.{alive, send_heartbeats, is_ready, demoted, check_nodes, check_node_health}
use royak.World.State.{DesiredWorld}

-- What a health check at `now` on the node `me` may make of the node stored under a name.
pub data IsJudged (me : Text) (now : ℕ) (name : Text)
    : Option ClusterNode → Option ClusterNode → Type 0 where
  missing : IsJudged me now name none none
  silent :
      (n : ClusterNode)
      → name ≢ me
      → n.status ≡ NodeStatus.ready
      → n.last_heartbeat + 90 < now
      → IsJudged me now name (some n) (some (record n { status = NodeStatus.not_ready }))
  itself : (n : ClusterNode) → name ≡ me → IsJudged me now name (some n) (some n)
  not_ready_before :
      (n : ClusterNode) → n.status ≢ NodeStatus.ready → IsJudged me now name (some n) (some n)
  heard_of :
      (n : ClusterNode) → now ≤ n.last_heartbeat + 90 → IsJudged me now name (some n) (some n)

is_ready_iff : (s : NodeStatus) → (is_ready s ≡ true) ↔ (s ≡ NodeStatus.ready)
is_ready_iff NodeStatus.ready = (λ h. refl, λ h. refl)
is_ready_iff NodeStatus.not_ready = (λ h. absurd (cc h), λ h. absurd (cc h))
is_ready_iff NodeStatus.draining = (λ h. absurd (cc h), λ h. absurd (cc h))

judged : Text → ℕ → Text → ClusterNode → ClusterNode
judged me now name n =
    if not (text_eq name me) && ltb 90 (now - n.last_heartbeat) && is_ready n.status
    then demoted n
    else n

judged-IsJudged :
    (me : Text) (now : ℕ) (name : Text) (n : ClusterNode)
    → IsJudged me now name (some n) (some (judged me now name n))
unfolding judged
judged-IsJudged me now name n = elim (Bool-cases (text_eq name me)) [
  | inl own ↦ rw own (IsJudged.itself n (text_eq_sound name me own))
  | inr other ↦ elim (Bool-cases (ltb 90 (now - n.last_heartbeat))) [
    | inr recent ↦ rw other (rw recent (IsJudged.heard_of n (ground arith)))
    | inl old ↦ elim (Bool-cases (is_ready n.status)) [
      | inl up ↦ rw other (
          rw old (
            rw up (
              IsJudged.silent n (text_ne name me other) ((is_ready_iff n.status).0 up)
                (ground arith))))
      | inr down ↦ rw other (
          rw old (
            rw down
              (IsJudged.not_ready_before n (λ e. absurd (cc (down, (is_ready_iff n.status).1 e))))))
    ]
  ]
]

lookup-check_nodes :
    (me : Text) (now : ℕ) (nodes : Map ClusterNode) (j : Text)
    → lookup j (check_nodes me now nodes).1 ≡ Option.map (judged me now j) (lookup j nodes)
unfolding check_nodes lookup judged
lookup-check_nodes me now [] j = refl
lookup-check_nodes me now ((name, node) ∷ more) j = elim (Bool-cases (text_eq name j)) [
  | inl e ↦
      let same : name ≡ j = text_eq_sound name j e in
      subst
        (λ n.
          lookup n (check_nodes me now ((name, node) ∷ more)).1
          ≡ Option.map (judged me now n) (lookup n ((name, node) ∷ more)))
        same (ground (arith, text_eq_refl name))
  | inr e ↦ ground (arith, e, lookup-check_nodes me now more j)
]

map-IsJudged :
    (me : Text) (now : ℕ) (j : Text) (o : Option ClusterNode)
    → IsJudged me now j o (Option.map (judged me now j) o)
map-IsJudged me now j none = IsJudged.missing
map-IsJudged me now j (some n) = judged-IsJudged me now j n

-- The check marks as NotReady every node but this one that was Ready and whose last heartbeat is more
-- than 90 seconds old; it changes nothing else of that node, and nothing of any other.
pub check_node_health-IsJudged :
    (me : Text) (now : ℕ) (w : DesiredWorld) (j : Text)
    → IsJudged me now j (lookup j w.nodes) (lookup j (check_node_health me now w).1.nodes)
unfolding check_node_health
check_node_health-IsJudged me now w j =
    rw (lookup-check_nodes me now w.nodes j) (map-IsJudged me now j (lookup j w.nodes))

abbrev answered : Text → (Text → Bool) → List Text → Text → Bool
answered me reached names j = contains names j && not (text_eq j me) && reached j

lookup-send_heartbeats :
    (me : Text) (reached : Text → Bool) (now : ℕ) (nodes : Map ClusterNode) (names : List Text)
    (j : Text)
    → lookup j (send_heartbeats me reached now nodes names) ≡ (
        if answered me reached names j
        then Option.map (alive now) (lookup j nodes)
        else lookup j nodes)
unfolding send_heartbeats contains
lookup-send_heartbeats me reached now nodes [] j = ground arith
lookup-send_heartbeats me reached now nodes (name ∷ more) j = elim (Bool-cases (text_eq name j)) [
  | inl e ↦
      let same : name ≡ j = text_eq_sound name j e in
      ground (
        arith,
        e,
        ap reached same,
        ap (λ n. text_eq n me) same,
        lookup-modify name j (alive now) nodes,
        lookup-send_heartbeats me reached now nodes more j,
        lookup-send_heartbeats me reached now (modify name (alive now) nodes) more j,
      )
  | inr e ↦ ground (
    arith,
    e,
    lookup-modify name j (alive now) nodes,
    lookup-send_heartbeats me reached now nodes more j,
    lookup-send_heartbeats me reached now (modify name (alive now) nodes) more j,
  )
]

map-judged :
    (me : Text) (now later : ℕ) (j : Text) (o : Option ClusterNode)
    → later ≤ now + 90
    → Option.map (judged me later j) (Option.map (alive now) o) ≡ Option.map (alive now) o
unfolding judged
map-judged me now later j none l = refl
map-judged me now later j (some n) l =
    let recent : ltb 90 (later - now) ≡ false = ground arith in ap some (ground (arith, recent))

-- A stored peer that a round of heartbeats reaches is Ready, with the time of the round as its last
-- heartbeat, after every health check in the 90 seconds from then on, whatever its status was.
pub check_node_health-send_heartbeats :
    (me : Text) (reached : Text → Bool) (now later : ℕ) (w : DesiredWorld) (names : List Text)
    (j : Text) (n : ClusterNode)
    → lookup j w.nodes ≡ some n
    → contains names j ≡ true
    → j ≢ me
    → reached j ≡ true
    → later ≤ now + 90
    → let sent = record w { nodes = send_heartbeats me reached now w.nodes names } in
      lookup j (check_node_health me later sent).1.nodes
      ≡ some (record n { last_heartbeat = now; status = NodeStatus.ready })
unfolding check_node_health
check_node_health-send_heartbeats me reached now later w names j n stored h i k l =
    let found : lookup j (send_heartbeats me reached now w.nodes names)
        ≡ Option.map (alive now) (some n) =
      ground (arith, text_eq_iff j me, lookup-send_heartbeats me reached now w.nodes names j) in
    lookup-check_nodes me later (send_heartbeats me reached now w.nodes names) j
    ∙ ap (Option.map (judged me later j)) found
    ∙ map-judged me now later j (some n) l
