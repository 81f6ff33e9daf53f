-- ===== src/NeuralState/Persist.antt =====
-- src/neural_state.rs, `save` and `load`: the file's bytes. `String::from_utf8_lossy` and the answer
-- of the allocator to `Vec::with_capacity` are parameters, and the file system is left out: `encode`
-- is what `save` writes, `decode` what `load` makes of the bytes it has read.
use royak.World.Workloads.{F32}
pub mod RoundTrip
pub mod Panics
mod Tests
use royak.NeuralState.{NeuralState, StateEntry}
use royak.Prelude.{
  ◌==◌, text_eq, ◌*◌, zero, not, some, insert, drop, none, take, suc, ltb, ◌%◌, of_le, Map, [],
  if◌then◌else◌, length, Text, Option, Bool, ◌++◌, ◌∷◌, le_bytes, ◌^◌, codes, ℕ, List,
}

abbrev pub magic : List ℕ
magic = codes "NRNS"

abbrev pub state_version : ℕ
state_version = 1

abbrev pub u32_mod : ℕ
u32_mod = 2 ^ 32

pub data LoadError : Type 0 where
  file_too_small bad_magic : LoadError
  unsupported_version : ℕ → LoadError
  truncated truncated_key truncated_embedding truncated_value_header truncated_value : ℕ → LoadError

-- `panics` is a slice index out of range, `aborts` an allocation that fails.
pub data Loaded (A : Type 0) : Type 0 where
  loaded : A → Loaded A
  failed : LoadError → Loaded A
  panics aborts : Loaded A

-- Each f32 is its four bytes.
unfoldable pub encode_floats : List F32 → List ℕ
encode_floats [] = []
encode_floats (x ∷ xs) = le_bytes 4 x ++ encode_floats xs

unfoldable pub encode_entry : StateEntry → List ℕ
encode_entry e =
    le_bytes 4 (length e.key % u32_mod)
    ++ (e.key ++ (encode_floats e.embedding ++ (le_bytes 4 (length e.value % u32_mod) ++ e.value)))

unfoldable pub encode_entries : List StateEntry → List ℕ
encode_entries [] = []
encode_entries (e ∷ es) = encode_entry e ++ encode_entries es

unfoldable pub encode : NeuralState → List ℕ
encode s =
    magic
    ++ (le_bytes 4 state_version
        ++ (le_bytes 4 (length s.entries % u32_mod)
            ++ (le_bytes 4 (s.dim % u32_mod)
                ++ (le_bytes 8 s.version ++ encode_entries s.entries))))

-- `data[pos..pos + n]` and what follows it, if there are that many bytes.
unfoldable pub split_bytes : ℕ → List ℕ → Option (List ℕ × List ℕ)
split_bytes n rest = if ltb (length rest) n then none else some (take n rest, drop n rest)

unfoldable pub read_floats : ℕ → List ℕ → List F32
read_floats zero rest = []
read_floats (suc dim) rest = of_le (take 4 rest) ∷ read_floats dim (drop 4 rest)

module _ (lossy : List ℕ → Text) where
  -- One round of the loop: the entry and the bytes behind it.
  unfoldable pub decode_entry : ℕ → ℕ → List ℕ → Loaded (StateEntry × List ℕ)
  decode_entry dim i rest = elim (split_bytes 4 rest) [
    | none ↦ failed (truncated i)
    | some (key_len, rest1) ↦ elim (split_bytes (of_le key_len) rest1) [
      | none ↦ failed (truncated_key i)
      | some (key, rest2) ↦ elim (split_bytes (dim * 4) rest2) [
        | none ↦ failed (truncated_embedding i)
        | some (floats, rest3) ↦ elim (split_bytes 4 rest3) [
          | none ↦ failed (truncated_value_header i)
          | some (val_len, rest4) ↦ elim (split_bytes (of_le val_len) rest4) [
            | none ↦ failed (truncated_value i)
            | some (value, rest5) ↦ loaded (
              record { key = lossy key; embedding = read_floats dim floats; value = value },
              rest5,
            )
          ]
        ]
      ]
    ]
  ]

  -- `for i in i..i + left`, with the index built on the way.
  unfoldable pub decode_entries :
      ℕ → ℕ → ℕ → List ℕ → List StateEntry → Map ℕ → Loaded (List StateEntry × Map ℕ)
  decode_entries dim i zero rest entries index = loaded (entries, index)
  decode_entries dim i (suc left) rest entries index = elim (decode_entry dim i rest) [
    | failed e ↦ failed e
    | panics ↦ panics
    | aborts ↦ aborts
    | loaded (e, rest') ↦
        decode_entries dim (suc i) left rest' (entries ++ e ∷ []) (insert e.key i index)
  ]

  -- The header is checked for 20 bytes, and has 24. `can_reserve n` says whether there is memory for
  -- `n` entries: it is asked for the count of the header before any entry is read.
  unfoldable pub decode : (ℕ → Bool) → List ℕ → Loaded NeuralState
  decode can_reserve bytes =
      let version = of_le (take 4 (drop 4 bytes)) in
      let count = of_le (take 4 (drop 8 bytes)) in
      let dim = of_le (take 4 (drop 12 bytes)) in
      if ltb (length bytes) 20
      then failed file_too_small
      else if not (text_eq (take 4 bytes) magic)
      then failed bad_magic
      else if not (version == state_version)
      then failed (unsupported_version version)
      else if ltb (length bytes) 24
      then panics
      else if not (can_reserve count)
      then aborts
      else elim (decode_entries dim 0 count (drop 24 bytes) [] []) [
        | failed e ↦ failed e
        | panics ↦ panics
        | aborts ↦ aborts
        | loaded (entries, index) ↦ loaded (record {
          dim = dim;
          entries = entries;
          index = index;
          key_matrix = none;
          version = of_le (take 8 (drop 16 bytes));
        })
      ]
