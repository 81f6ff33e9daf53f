-- ===== src/Raft.antt =====
-- src/raft_node.rs, the Raft store: the log, the vote, the snapshot and the state machine
-- (`NeuroStore`), and src/consensus.rs, its commands. openraft's leader ids, votes and memberships
-- are parameters, and so is reading a manifest out of `spec_json`.
-- The `committed` field of the store is never read. A panic while a manifest is applied poisons the
-- lock of the world; what the store does after that is left out.
use royak.Apply.Dispatch.{apply as apply_resource}
use royak.Apply.Base.{Readers, Outcome}
use royak.World.Manifest.{Resource}
use royak.World.Cluster.{ClusterNode}
use royak.World.Workloads.{StoredDeployment, F32}
pub mod Log
pub mod LogStore
pub mod Machine
mod Tests
use royak.Prelude.{
  ◌>>=◌, ltb, leb, ◌==◌, if◌then◌else◌, decimal, modify, contains_key, Text, codes, ℕ, ◌+◌, ◌-◌,
  ◌/◌, Bool, not, Option, none, some, List, [], ◌∷◌, ◌++◌, map,
}
use royak.Deletion.{delete_resource}
use royak.World.State.{DesiredWorld}

pub data Command : Type 0 where
  apply : (kind name namespace spec_json : Text) → Command
  scale : (name namespace : Text) (replicas : ℕ) → Command
  delete : (kind name namespace : Text) → Command
  heartbeat : (node : Text) (cpu_used mem_used : F32) (pod_count : ℕ) → Command

-- The first manifest in a `spec_json`, by way of serde_json and serde_yaml, and what
-- `DesiredWorld::apply` takes of serde.
pub record Manifests : Type 0 where
  pub read : Text → Option Resource
  pub readers : Readers
  pub trim : Text → Text

abbrev pub set_replicas : ℕ → StoredDeployment → StoredDeployment
set_replicas n d = record d { replicas = n }

abbrev pub set_usage : F32 → F32 → ℕ → ClusterNode → ClusterNode
set_usage cpu mem pods n = record n { cpu_used = cpu; mem_used = mem; pod_count = pods }

abbrev pub set_runtime : Text → DesiredWorld → DesiredWorld
set_runtime stamp w = record w { config = record w.config { runtime = stamp } }

-- The arrow of the message, in UTF-8.
abbrev arrow : Text
arrow = 226 ∷ 134 ∷ 146 ∷ []

unfoldable pub response : Text → Text → Text → Outcome → Text
response kind name namespace (Outcome.ok message) = message
response kind name namespace (Outcome.err e) =
    codes "apply "
    ++ kind
    ++ codes "/"
    ++ name
    ++ codes " ns="
    ++ namespace
    ++ codes " failed: "
    ++ e

-- `none` is a panic of `DesiredWorld::apply`. Its effects outside the world are left out.
module _ (m : Manifests) where
  unfoldable pub run_apply :
      DesiredWorld → Text → Text → Text → Option Resource → Option (Text × DesiredWorld)
  unfolding response
  run_apply w kind name namespace none =
      some (codes "apply " ++ kind ++ codes "/" ++ name ++ codes ": could not parse spec_json", w)
  run_apply w kind name namespace (some r) = apply_resource m.readers m.trim w r >>= λ a.
      some (response kind name namespace a.outcome, a.world)

  run_command : DesiredWorld → Command → Option (Text × DesiredWorld)
  run_command w (Command.apply kind name namespace spec_json) =
      run_apply w kind name namespace (m.read spec_json)
  run_command w (Command.scale name namespace replicas) =
      if contains_key name w.deployments
      then some (
        codes "scale "
            ++ name
            ++ codes " ns="
            ++ namespace
            ++ codes " "
            ++ arrow
            ++ codes " "
            ++ decimal replicas,
        record w { deployments = modify name (set_replicas replicas) w.deployments },
      )
      else some (codes "scale " ++ name ++ codes ": not found", w)
  run_command w (Command.delete kind name namespace) =
      let deletion = delete_resource w kind name in
      some (
        codes "delete "
            ++ kind
            ++ codes "/"
            ++ name
            ++ codes " ns="
            ++ namespace
            ++ codes " ("
            ++ (if deletion.existed then codes "removed" else codes "not found")
            ++ codes ")",
        deletion.world,
      )
  run_command w (Command.heartbeat node cpu_used mem_used pod_count) = some (
    codes "heartbeat " ++ node,
    record w { nodes = modify node (set_usage cpu_used mem_used pod_count) w.nodes },
  )

  unfoldable pub apply_command : DesiredWorld → Command → Option (Text × DesiredWorld)
  unfolding run_command run_apply
  apply_command w cmd = run_command w cmd >>= λ done.
      some (done.0, set_runtime (codes "raft:[raft] " ++ done.0) done.1)

pub record LogId (Leader : Type 0) : Type 0 where
  pub leader_id : Leader
  pub index : ℕ

pub data Payload (Membership : Type 0) : Type 0 where
  blank : Payload Membership
  normal : Command → Payload Membership
  membership : Membership → Payload Membership

pub record Entry (Leader Membership : Type 0) : Type 0 where
  pub log_id : LogId Leader
  pub payload : Payload Membership

pub record StoredMembership (Leader Membership : Type 0) : Type 0 where
  pub log_id : Option (LogId Leader)
  pub members : Membership

pub record SnapshotMeta (Leader Membership : Type 0) : Type 0 where
  pub last_log_id : Option (LogId Leader)
  pub last_membership : StoredMembership Leader Membership
  pub snapshot_id : Text

pub record NeuroSnapshot (Leader Membership : Type 0) : Type 0 where
  pub meta : SnapshotMeta Leader Membership
  pub payload : List ℕ

pub record NeuroStore (Leader Vote Membership : Type 0) : Type 0 where
  pub vote : Option Vote
  -- The `BTreeMap`, in the order of its keys.
  pub log : List (ℕ × Entry Leader Membership)
  pub last_purged : Option (LogId Leader)
  pub world : DesiredWorld
  pub last_applied : Option (LogId Leader)
  pub last_membership : StoredMembership Leader Membership
  pub current_snapshot : Option (NeuroSnapshot Leader Membership)

pub record LogState (Leader : Type 0) : Type 0 where
  pub last_purged_log_id : Option (LogId Leader)
  pub last_log_id : Option (LogId Leader)

-- A `BTreeMap<u64, V>`.
unfoldable pub insert_at {ℓ} : {V : Type ℓ} → ℕ → V → List (ℕ × V) → List (ℕ × V)
insert_at k v [] = (k, v) ∷ []
insert_at k v ((j, w) ∷ m) =
    let rest = insert_at k v m in
    if ltb k j then (k, v) ∷ (j, w) ∷ m else if k == j then (k, v) ∷ m else (j, w) ∷ rest

unfoldable pub get_at {ℓ} : {V : Type ℓ} → ℕ → List (ℕ × V) → Option V
get_at k [] = none
get_at k ((j, w) ∷ m) = if j == k then some w else get_at k m

unfoldable pub last_value {ℓ} : {V : Type ℓ} → List (ℕ × V) → Option V
last_value [] = none
last_value ((j, w) ∷ m) = elim (last_value m) [ none ↦ some w | some v ↦ some v ]

-- The entries with a key in a range, and those with the keys taken away one by one.
unfoldable pub in_range {ℓ} : {V : Type ℓ} → (ℕ → Bool) → List (ℕ × V) → List (ℕ × V)
in_range p [] = []
in_range p ((j, w) ∷ m) = let rest = in_range p m in if p j then (j, w) ∷ rest else rest

unfoldable pub remove_at {ℓ} : {V : Type ℓ} → ℕ → List (ℕ × V) → List (ℕ × V)
remove_at k [] = []
remove_at k ((j, w) ∷ m) = let rest = remove_at k m in if j == k then rest else (j, w) ∷ rest

unfoldable pub remove_keys {ℓ} : {V : Type ℓ} → List (ℕ × V) → List (ℕ × V) → List (ℕ × V)
remove_keys [] m = m
remove_keys ((k, v) ∷ ks) m = remove_keys ks (remove_at k m)

unfoldable pub insert_entries :
    {Leader Membership : Type 0}
    → List (Entry Leader Membership)
    → List (ℕ × Entry Leader Membership)
    → List (ℕ × Entry Leader Membership)
insert_entries [] log = log
insert_entries (e ∷ es) log = insert_entries es (insert_at e.log_id.index e log)

module _ {Leader Vote Membership : Type 0} where
  -- `StoredMembership::default()` is the argument.
  unfoldable pub new_store :
      StoredMembership Leader Membership → DesiredWorld → NeuroStore Leader Vote Membership
  new_store no_members world = record {
    vote = none;
    log = [];
    last_purged = none;
    world = world;
    last_applied = none;
    last_membership = no_members;
    current_snapshot = none;
  }

  unfoldable pub try_get_log_entries :
      NeuroStore Leader Vote Membership → (ℕ → Bool) → List (Entry Leader Membership)
  try_get_log_entries s range = map (λ e. e.1) (in_range range s.log)

  unfoldable pub get_log_state : NeuroStore Leader Vote Membership → LogState Leader
  get_log_state s = record {
    last_purged_log_id = s.last_purged;
    last_log_id = elim (last_value s.log) [ none ↦ s.last_purged | some e ↦ some e.log_id ];
  }

  unfoldable pub save_vote :
      NeuroStore Leader Vote Membership → Vote → NeuroStore Leader Vote Membership
  save_vote s vote = record s { vote = some vote }

  unfoldable pub append_to_log :
      NeuroStore Leader Vote Membership
      → List (Entry Leader Membership)
      → NeuroStore Leader Vote Membership
  append_to_log s entries = record s { log = insert_entries entries s.log }

  unfoldable pub delete_conflict_logs_since :
      NeuroStore Leader Vote Membership → LogId Leader → NeuroStore Leader Vote Membership
  delete_conflict_logs_since s log_id = record s {
    log = remove_keys (in_range (leb log_id.index) s.log) s.log;
  }

  unfoldable pub purge_logs_upto :
      NeuroStore Leader Vote Membership → LogId Leader → NeuroStore Leader Vote Membership
  purge_logs_upto s log_id = record s {
    last_purged = some log_id;
    log = remove_keys (in_range (λ k. leb k log_id.index) s.log) s.log;
  }

  unfoldable pub apply_payload :
      Manifests
      → NeuroStore Leader Vote Membership
      → LogId Leader
      → Payload Membership
      → Option (Text × NeuroStore Leader Vote Membership)
  unfolding apply_command
  apply_payload m s log_id Payload.blank = some ([], record s { last_applied = some log_id })
  apply_payload m s log_id (Payload.normal cmd) = apply_command m s.world cmd >>= λ done.
      some (done.0, record s { last_applied = some log_id; world = done.1 })
  apply_payload m s log_id (Payload.membership members) = some (
    [],
    record s {
      last_applied = some log_id;
      last_membership = record { log_id = some log_id; members = members };
    },
  )

  unfoldable pub apply_entry :
      Manifests
      → NeuroStore Leader Vote Membership
      → Entry Leader Membership
      → Option (Text × NeuroStore Leader Vote Membership)
  unfolding apply_payload
  apply_entry m s e = apply_payload m s e.log_id e.payload

  unfoldable pub apply_to_state_machine :
      Manifests
      → NeuroStore Leader Vote Membership
      → List (Entry Leader Membership)
      → Option (List Text × NeuroStore Leader Vote Membership)
  unfolding apply_entry
  apply_to_state_machine m s [] = some ([], s)
  apply_to_state_machine m s (e ∷ es) = apply_entry m s e >>= λ first.
      apply_to_state_machine m first.1 es >>= λ rest. some (first.0 ∷ rest.0, rest.1)

  -- The printed leader id and serde_json's printer are parameters.
  unfoldable pub build_snapshot :
      (Leader → Text)
      → (Option (LogId Leader) → List ℕ)
      → NeuroStore Leader Vote Membership
      → NeuroSnapshot Leader Membership × NeuroStore Leader Vote Membership
  build_snapshot show_leader to_vec s =
      let snapshot : NeuroSnapshot Leader Membership = record {
        meta = record {
          last_log_id = s.last_applied;
          last_membership = s.last_membership;
          snapshot_id = elim s.last_applied [
            | none ↦ codes "--0"
            | some l ↦ show_leader l.leader_id ++ codes "-" ++ decimal l.index ++ codes "-0"
          ];
        };
        payload = to_vec s.last_applied;
      } in
      (snapshot, record s { current_snapshot = some snapshot })

  unfoldable pub install_snapshot :
      NeuroStore Leader Vote Membership
      → SnapshotMeta Leader Membership
      → List ℕ
      → NeuroStore Leader Vote Membership
  install_snapshot s meta payload = record s {
    last_applied = meta.last_log_id;
    last_membership = meta.last_membership;
    current_snapshot = some (record { meta = meta; payload = payload });
  }
