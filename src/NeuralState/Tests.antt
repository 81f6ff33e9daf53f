-- ===== src/NeuralState/Tests.antt =====
-- A short history of the store, and its theorems at that history.
use royak.NeuralState.Reads.{drop_key}
use royak.World.Workloads.{F32}
use royak.NeuralState.{get_key, set_key, NeuralState, new_state, delete_key}
use royak.NeuralState.Refinement.{
  Op, sets, deletes, run, run_dict, Refines, run-new_state, delete_key-result,
}
use royak.Prelude.{
  ◌>>=◌, text_eq, remove, false, none, insert, [], some, lookup, ◌∷◌, codes, ℕ, ◌≡◌, List, Text,
  refl,
}

abbrev flat : Text → ℕ → List F32
flat key dim = []

abbrev key_a : Text
key_a = codes "a"

abbrev key_b : Text
key_b = codes "b"

-- The last entry moves into the freed slot.
abbrev history : List Op
history = sets key_a (1 ∷ []) ∷ sets key_b (2 ∷ []) ∷ deletes key_a ∷ sets key_b (3 ∷ []) ∷ []

history_keeps_b : (run flat history new_state >>= λ s. get_key s key_b) ≡ some (some (3 ∷ []))
unfolding run new_state set_key delete_key get_key lookup insert remove text_eq
history_keeps_b = refl

run-new_state_example :
    (t : NeuralState) × (run flat history new_state ≡ some t)
    × Refines t (run_dict history (λ k. none))
run-new_state_example = run-new_state flat history

empty_dict-Refines : Refines new_state (λ k. none)
unfolding new_state get_key lookup
empty_dict-Refines = record {
  indexed = record { sound = λ k i h. absurd (cc h); complete = λ i e h. absurd (cc h) };
  gets = λ j. refl;
}

delete_key-result_example :
    (t : NeuralState) × (delete_key new_state key_a ≡ some (false, t))
    × Refines t (drop_key key_a (λ k. none))
delete_key-result_example = delete_key-result new_state (λ k. none) key_a empty_dict-Refines
