-- ===== src/Raft/Tests.antt =====
-- The Raft store with one node, numbers as leader ids and no manifests.
use royak.Prelude.{modify, Text, codes, text_eq, ℕ, ◌≡◌, refl, false, none, some, List, [], ◌∷◌}
use royak.Raft.{
  Manifests, Command, Payload, Entry, LogId, NeuroStore, StoredMembership, new_store, apply_command,
  apply_to_state_machine, get_log_state, set_runtime, set_usage,
}
use royak.Raft.LogStore.{LogOp, Holds, effect, effects, run_ops, run_ops-Holds}
use royak.Raft.Machine.{AppliedAll, apply_to_state_machine-AppliedAll, apply_command-runtime}
use royak.World.State.{DesiredWorld, new_world}
use royak.Samples.{web_world, no_readers}

abbrev no_manifest : Manifests
no_manifest = record { read = λ spec_json. none; readers = no_readers; trim = λ t. t }

abbrev no_members : StoredMembership ℕ (List ℕ)
no_members = record { log_id = none; members = [] }

abbrev store : NeuroStore ℕ ℕ (List ℕ)
store = new_store no_members web_world

abbrev id : ℕ → LogId ℕ
id i = record { leader_id = 1; index = i }

abbrev scale_web : ℕ → ℕ → Entry ℕ (List ℕ)
scale_web i n = record {
  log_id = id i;
  payload = Payload.normal (Command.scale (codes "web") (codes "default") n);
}

abbrev ops : List (LogOp ℕ (List ℕ))
ops =
    LogOp.append (scale_web 1 4 ∷ scale_web 2 5 ∷ scale_web 3 6 ∷ [])
    ∷ LogOp.conflict (id 3)
    ∷ LogOp.append (scale_web 3 7 ∷ [])
    ∷ LogOp.purge (id 1)
    ∷ []

run_ops-Holds_example :
    let s = run_ops (new_store {Vote = ℕ} no_members web_world) ops in
    Holds s.log (λ j. effects ops j none) s.last_purged (get_log_state s).last_log_id
run_ops-Holds_example = run_ops-Holds ℕ no_members web_world ops

entry_three : effects ops 3 none ≡ some (scale_web 3 7)
unfolding effects effect
entry_three = refl

entry_one : effects ops 1 none ≡ none
unfolding effects effect
entry_one = refl

abbrev beat : Command
beat = Command.heartbeat (codes "node-1") 0 0 3

abbrev beaten : Text × DesiredWorld
beaten = (
  codes "heartbeat node-1",
  set_runtime (codes "raft:[raft] heartbeat node-1")
      (record web_world { nodes = modify (codes "node-1") (set_usage 0 0 3) web_world.nodes }),
)

apply_command-runtime_example : text_eq beaten.1.config.runtime (codes "docker") ≡ false
unfolding apply_command
apply_command-runtime_example = apply_command-runtime no_manifest web_world beat beaten refl

-- A heartbeat, and the blank entry of a new leader.
abbrev batch : List (Entry ℕ (List ℕ))
batch =
    record { log_id = id 4; payload = Payload.normal beat }
    ∷ record { log_id = id 5; payload = Payload.blank }
    ∷ []

abbrev applied : List Text × NeuroStore ℕ ℕ (List ℕ)
applied = (
  codes "heartbeat node-1" ∷ [] ∷ [],
  record store { last_applied = some (id 5); world = beaten.1 },
)

apply_to_state_machine-batch : apply_to_state_machine no_manifest store batch ≡ some applied
unfolding apply_to_state_machine apply_command new_store new_world
apply_to_state_machine-batch = refl

apply_to_state_machine-AppliedAll_example : AppliedAll no_manifest store batch applied.0 applied.1
apply_to_state_machine-AppliedAll_example =
    apply_to_state_machine-AppliedAll no_manifest store batch applied apply_to_state_machine-batch
