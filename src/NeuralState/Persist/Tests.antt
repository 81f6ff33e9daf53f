-- ===== src/NeuralState/Persist/Tests.antt =====
-- A store of one entry, saved and loaded, and headers at which `load` does not come back.
use royak.NeuralState.Invariant.{IsIndexed, Agrees}
use royak.Prelude.{
  length, get_elem?, take, drop, lookup, insert, le_bytes, of_le, Text, Bool, ltb, false, codes,
  text_eq, text_eq_refl, text_eq_iff, ℕ, zero, suc, ◌≤◌, ◌<◌, ◌≡◌, refl, ◌↔◌, none, some, List, [],
  ◌∷◌, ◌++◌, arith,
}
use royak.NeuralState.{NeuralState, StateEntry}
use royak.NeuralState.Persist.{
  encode, decode, loaded, panics, aborts, decode_entries, decode_entry, encode_entries,
  encode_entry, encode_floats, read_floats, split_bytes,
}
use royak.NeuralState.Persist.RoundTrip.{FitsAll, decode-encode}
use royak.NeuralState.Persist.Panics.{HasVersion, decode-stops_iff}

-- Room for a million entries.
abbrev some_room : ℕ → Bool
some_room n = ltb n 1000000

abbrev plain_text : List ℕ → Text
plain_text bytes = bytes

abbrev one_entry : NeuralState
one_entry = record {
  dim = 1;
  entries = record { key = codes "web"; embedding = 0x3f800000 ∷ []; value = 7 ∷ 8 ∷ [] } ∷ [];
  index = (codes "web", 0) ∷ [];
  key_matrix = none;
  version = 1;
}

saved_and_loaded : decode plain_text some_room (encode one_entry) ≡ loaded one_entry
unfolding decode encode decode_entries decode_entry encode_entries encode_entry encode_floats
    read_floats split_bytes le_bytes of_le text_eq insert
saved_and_loaded = refl

one_entry-IsIndexed : Agrees one_entry.entries one_entry.index
unfolding lookup
one_entry-IsIndexed = record {
  sound = λ k i h. (
    record { key = codes "web"; embedding = 0x3f800000 ∷ []; value = 7 ∷ 8 ∷ [] },
    ground arith,
    ground (arith, text_eq_iff (codes "web") k),
  );
  complete = complete;
}
  where
    complete :
        (i : ℕ) (e : StateEntry)
        → get_elem? one_entry.entries i ≡ some e
        → lookup e.key one_entry.index ≡ some i
    complete zero e h = ground (arith, text_eq_refl (codes "web"))
    complete (suc i) e h = absurd (cc h)

one_entry-FitsAll : FitsAll plain_text one_entry
one_entry-FitsAll = record {
  count = omega arith;
  dim = omega arith;
  version = omega arith;
  entries = (
    record {
      key_text = refl;
      key_length = omega arith;
      value_length = omega arith;
      embedding_length = refl;
      embedding_words = (omega arith, tt);
    },
    tt,
  );
}

decode-encode_example :
    (t : NeuralState) × (decode plain_text some_room (encode one_entry) ≡ loaded t)
    × (t.entries ≡ one_entry.entries)
    × (t.dim ≡ one_entry.dim)
    × (t.version ≡ one_entry.version)
    × IsIndexed t
    × ((k : Text) → lookup k t.index ≡ lookup k one_entry.index)
decode-encode_example =
    decode-encode plain_text some_room one_entry one_entry-IsIndexed one_entry-FitsAll refl

abbrev cut_header : List ℕ
cut_header = codes "NRNS" ++ (1 ∷ 0 ∷ 0 ∷ 0 ∷ codes "0000111122223")

decode-stops_iff_example :
    ((decode plain_text some_room cut_header ≡ panics)
      ↔ (HasVersion cut_header × (length cut_header < 24)))
    × ((decode plain_text some_room cut_header ≡ aborts) ↔ (
        HasVersion cut_header
        × (24 ≤ length cut_header)
        × (some_room (of_le (take 4 (drop 8 cut_header))) ≡ false)))
decode-stops_iff_example = decode-stops_iff plain_text some_room cut_header

-- A file of nothing but a header that promises 2 ^ 32 - 1 entries.
abbrev big_count : List ℕ
big_count = codes "NRNS" ++ (1 ∷ 0 ∷ 0 ∷ 0 ∷ 255 ∷ 255 ∷ 255 ∷ 255 ∷ codes "000011112222")

big_count-aborts : decode plain_text some_room big_count ≡ aborts
unfolding decode of_le text_eq
big_count-aborts = refl
