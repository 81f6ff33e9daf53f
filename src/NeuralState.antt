-- ===== src/NeuralState.antt =====
-- src/neural_state.rs: the key-value store, its entries in a vector and their positions in an index.
-- `none` is a panic: an index out of bounds, or the length of an empty vector less one. The key
-- embedding is a parameter; `search`, which reads the store through it, is left out.
pub mod Invariant
mod Reads
pub mod Refinement
pub mod Persist
mod Tests
use royak.Prelude.{
  ◌>>=◌, ℕ, zero, suc, ◌+◌, ◌%◌, ◌^◌, Bool, true, false, Option, none, some, List, [], ◌∷◌, ◌++◌,
  Text, Map, lookup, insert, remove, keys, length, get_elem?, set, take, filter, starts_with, map,
  ◌==◌, if◌then◌else◌,
}
use royak.World.Workloads.{F32}

pub record StateEntry : Type 0 where
  pub key : Text
  pub embedding : List F32
  pub value : List ℕ

-- `key_matrix` is the cache of `search`: the embeddings, row by row.
pub record NeuralState : Type 0 where
  pub dim : ℕ
  pub entries : List StateEntry
  pub index : Map ℕ
  pub key_matrix : Option (List (List F32))
  pub version : ℕ

abbrev pub default_dim : ℕ
default_dim = 64

unfoldable pub new_state : NeuralState
new_state = record { dim = default_dim; entries = []; index = []; key_matrix = none; version = 0 }

-- The first lines of a mutation: the cache is dropped and the counter, a u64, goes up.
abbrev touched : NeuralState → NeuralState
touched s = record s { key_matrix = none; version = (s.version + 1) % 2 ^ 64 }

unfoldable pub set_key : (Text → ℕ → List F32) → NeuralState → Text → List ℕ → Option NeuralState
set_key embed_key s key value = elim (lookup key s.index) [
  | some idx ↦ elim (get_elem? s.entries idx) [
    | none ↦ none
    | some e ↦
        some (record (touched s) { entries = set s.entries idx (record e { value = value }) })
  ]
  | none ↦ some (record (touched s) {
    entries =
        s.entries ++ record { key = key; embedding = embed_key key s.dim; value = value } ∷ [];
    index = insert key (length s.entries) s.index;
  })
]

unfoldable pub get_key : NeuralState → Text → Option (Option (List ℕ))
get_key s key = elim (lookup key s.index) [
  | none ↦ some none
  | some idx ↦ elim (get_elem? s.entries idx) [ none ↦ none | some e ↦ some (some e.value) ]
]

-- Swap-remove: the last entry moves into the freed slot, and the index follows it.
swap_remove : ℕ → Map ℕ → NeuralState → Option NeuralState
swap_remove idx index' s = elim (length s.entries) [
  | zero ↦ none
  | suc last ↦
      if idx == last
      then some (record (touched s) { entries = take last s.entries; index = index' })
      else do
        moved ← get_elem? s.entries last
        freed ← get_elem? s.entries idx
        some (record (touched s) {
          entries = take last (set (set s.entries idx moved) last freed);
          index = insert moved.key idx index';
        })
]

unfoldable pub delete_key : NeuralState → Text → Option (Bool × NeuralState)
unfolding swap_remove
delete_key s key = elim (lookup key s.index) [
  | none ↦ some (false, s)
  | some idx ↦ elim (swap_remove idx (remove key s.index) s) [
    | none ↦ none
    | some t ↦ some (true, t)
  ]
]

unfoldable pub list_prefix : NeuralState → Text → List Text
list_prefix s prefix = filter (λ k. starts_with k prefix) (keys s.index)

unfoldable pub entry_keys : NeuralState → List Text
entry_keys s = map (λ e. e.key) s.entries
