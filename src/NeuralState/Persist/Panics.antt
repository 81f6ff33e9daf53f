-- ===== src/NeuralState/Persist/Panics.antt =====
-- On which files `load` neither returns a store nor an error.
use royak.Prelude.{
  length, take, drop, Map, insert, of_le, Text, codes, text_eq_iff, ℕ, zero, suc, ◌≤◌, ◌<◌, ◌≡◌,
  refl, ◌≢◌, false, Bool, subst, ◌↔◌, List, [], ◌∷◌, ◌++◌, arith,
}
use royak.NeuralState.{StateEntry}
use royak.NeuralState.Persist.{
  LoadError, magic, Loaded, loaded, failed, panics, aborts, decode_entry, decode_entries, decode,
}

data LoadResult {A : Type 0} (r : Loaded A) : Type 0 where
  is_loaded : (a : A) → r ≡ loaded a → LoadResult r
  is_failed : (e : LoadError) → r ≡ failed e → LoadResult r
  is_panic : r ≡ panics → LoadResult r
  is_abort : r ≡ aborts → LoadResult r

outcome : {A : Type 0} (r : Loaded A) → LoadResult r
outcome (loaded a) = is_loaded a refl
outcome (failed e) = is_failed e refl
outcome panics = is_panic refl
outcome aborts = is_abort refl

-- Not a store and not an error.
data Stops {A : Type 0} (r : Loaded A) : Type 0 where
  by_panic : r ≡ panics → Stops r
  by_abort : r ≡ aborts → Stops r

-- The file passes the checks of `load` on its length, its magic and its version.
pub record HasVersion (bytes : List ℕ) : Type 0 where
  pub checked_length : 20 ≤ length bytes
  pub magic_bytes : take 4 bytes ≡ codes "NRNS"
  pub version_bytes : of_le (take 4 (drop 4 bytes)) ≡ 1

failed-returns : {A : Type 0} {r : Loaded A} (err : LoadError) → r ≡ failed err → ¬ Stops r
failed-returns err e (Stops.by_panic h) = absurd (cc (e, h))
failed-returns err e (Stops.by_abort h) = absurd (cc (e, h))

module _ (lossy : List ℕ → Text) where
  decode_entry-returns : (dim i : ℕ) (rest : List ℕ) → ¬ Stops (decode_entry lossy dim i rest)
  unfolding decode_entry
  decode_entry-returns dim i rest (Stops.by_panic h) = ground arith
  decode_entry-returns dim i rest (Stops.by_abort h) = ground arith

  decode_entries-returns :
      (dim i left : ℕ) (rest : List ℕ) (entries : List StateEntry) (index : Map ℕ)
      → ¬ Stops (decode_entries lossy dim i left rest entries index)
  unfolding decode_entries
  decode_entries-returns dim i zero rest entries index (Stops.by_panic h) = ground arith
  decode_entries-returns dim i zero rest entries index (Stops.by_abort h) = ground arith
  decode_entries-returns dim i (suc left) rest entries index h =
      elim (outcome (decode_entry lossy dim i rest)) [
        | is_panic e ↦ decode_entry-returns dim i rest (Stops.by_panic e)
        | is_abort e ↦ decode_entry-returns dim i rest (Stops.by_abort e)
        | is_failed err e ↦ failed-returns err (of_failed err e) h
        | is_loaded (e0, rest') e ↦
            decode_entries-returns dim (suc i) left rest' (entries ++ e0 ∷ [])
              (insert e0.key i index) (subst Stops (of_loaded e0 rest' e) h)
      ]
    where
      of_failed :
          (err : LoadError)
          → decode_entry lossy dim i rest ≡ failed err
          → decode_entries lossy dim i (suc left) rest entries index ≡ failed err
      of_failed err e = ground arith

      of_loaded :
          (e0 : StateEntry) (rest' : List ℕ)
          → decode_entry lossy dim i rest ≡ loaded (e0, rest')
          → decode_entries lossy dim i (suc left) rest entries index
            ≡ decode_entries lossy dim
                (suc i)
                left
                rest'
                (entries ++ e0 ∷ [])
                (insert e0.key i index)
      of_loaded e0 rest' e = ground arith

  -- On a file with the magic and the version, `load` panics exactly if it has 20 to 23 bytes (the
  -- length check stops at 20 bytes, and the header has 24), and aborts exactly if there is no memory
  -- for as many entries as the header states; on every other file it returns a store or an error.
  pub decode-stops_iff :
      (can_reserve : ℕ → Bool) (bytes : List ℕ)
      → ((decode lossy can_reserve bytes ≡ panics) ↔ (HasVersion bytes × (length bytes < 24)))
        × ((decode lossy can_reserve bytes ≡ aborts) ↔ (
            HasVersion bytes
            × (24 ≤ length bytes)
            × (can_reserve (of_le (take 4 (drop 8 bytes))) ≡ false)))
  unfolding decode
  decode-stops_iff can_reserve bytes =
      let count = of_le (take 4 (drop 8 bytes)) in
      let dim = of_le (take 4 (drop 12 bytes)) in
      let body : ¬ Stops (decode_entries lossy dim 0 count (drop 24 bytes) [] []) =
        decode_entries-returns dim 0 count (drop 24 bytes) [] [] in
      let no_panic : decode_entries lossy dim 0 count (drop 24 bytes) [] [] ≢ panics =
        λ e. body (Stops.by_panic e) in
      let no_abort : decode_entries lossy dim 0 count (drop 24 bytes) [] [] ≢ aborts =
        λ e. body (Stops.by_abort e) in
      (
        (
          λ h. (
            record {
              checked_length = ground arith;
              magic_bytes = ground (arith, text_eq_iff (take 4 bytes) magic);
              version_bytes = ground arith;
            },
            ground arith,
          ),
          λ h.
              (let v = h.0 in
                ground (
                  arith,
                  text_eq_iff (take 4 bytes) magic,
                  v.checked_length,
                  v.magic_bytes,
                  v.version_bytes,
                )),
        ),
        (
          λ h. (
            record {
              checked_length = ground arith;
              magic_bytes = ground (arith, text_eq_iff (take 4 bytes) magic);
              version_bytes = ground arith;
            },
            ground arith,
            ground arith,
          ),
          λ h.
              (let v = h.0 in
                ground (
                  arith,
                  text_eq_iff (take 4 bytes) magic,
                  v.checked_length,
                  v.magic_bytes,
                  v.version_bytes,
                )),
        ),
      )
