-- ===== src/NeuralState/Refinement.antt =====
-- The store is a dictionary: every run of sets and deletes gives what the dictionary gives.
use royak.World.Workloads.{F32}
use royak.NeuralState.{
  StateEntry, get_key, new_state, delete_key, set_key, swap_remove, NeuralState,
}
use royak.NeuralState.Reads.{
  swap-reads, replace-reads, drop_last-reads, push-reads, read-miss, read-hit, drop_key, put, read,
  Dict,
}
use royak.NeuralState.Invariant.{
  swap-Agrees, swapped, replace-Agrees, drop_last-Agrees, push-Agrees, within, Agrees, IsIndexed,
}
use royak.Prelude.{
  ◌∷◌, [], ◌≢◌, get_elem?-within, subst, insert, inr, set, text_eq_iff, Bool-cases, take, arith,
  false, true, ◌^◌, ◌-◌, inl, ◌==◌, ◌%◌, is_some, remove, Option-cases, suc, ◌+◌, Option, get_elem?,
  length, none, some, lookup, ◌≡◌, Map, ℕ, List, Text, refl,
}

-- The store is sound, and each lookup returns what the dictionary holds, without a panic.
pub record Refines (s : NeuralState) (d : Dict) : Type 0 where
  pub indexed : IsIndexed s
  pub gets : (k : Text) → get_key s k ≡ some (d k)

pub data Op : Type 0 where
  sets : Text → List ℕ → Op
  deletes : Text → Op

abbrev changed : NeuralState → List StateEntry → Map ℕ → NeuralState
changed s es ix = record s {
  key_matrix = none;
  version = (s.version + 1) % 2 ^ 64;
  entries = es;
  index = ix;
}

swap_remove_end :
    (s : NeuralState) (idx last : ℕ) (ix : Map ℕ)
    → length s.entries ≡ suc last
    → (idx == last) ≡ true
    → swap_remove idx ix s ≡ some (changed s (take last s.entries) ix)
unfolding swap_remove
swap_remove_end s idx last ix len e = ground arith

swap_remove_inside :
    (s : NeuralState) (idx last : ℕ) (ix : Map ℕ) (freed moved : StateEntry)
    → length s.entries ≡ suc last
    → (idx == last) ≡ false
    → get_elem? s.entries idx ≡ some freed
    → get_elem? s.entries last ≡ some moved
    → swap_remove idx ix s
      ≡ some (
          changed s
            (take last (set (set s.entries idx moved) last freed))
            (insert moved.key idx ix))
unfolding swap_remove
swap_remove_inside s idx last ix freed moved len e at at_last = ground arith

module _ (s : NeuralState) (d : Dict) (r : Refines s d) where
  reads : (k : Text) → read s.entries s.index k ≡ some (d k)
  unfolding read get_key
  reads k = r.gets k

  Refines-of :
      (es : List StateEntry) (ix : Map ℕ) (d' : Dict)
      → Agrees es ix
      → ((k : Text) → read es ix k ≡ some (d' k))
      → Refines
          (record s {
            key_matrix = none;
            version = (s.version + 1) % 2 ^ 64;
            entries = es;
            index = ix;
          })
          d'
  unfolding read get_key
  Refines-of es ix d' agrees gets = record { indexed = agrees; gets = gets }

  set_key-Refines :
      (embed_key : Text → ℕ → List F32) (key : Text) (value : List ℕ)
      → (t : NeuralState) × (set_key embed_key s key value ≡ some t) × Refines t (put key value d)
  unfolding set_key
  set_key-Refines embed_key key value = elim (Option-cases (lookup key s.index)) [
    | inl fresh ↦
        let e : StateEntry = record { key = key; embedding = embed_key key s.dim; value = value } in
        (
          _,
          ground arith,
          Refines-of _ _ _ (push-Agrees s.entries s.index r.indexed e fresh)
              (push-reads s.entries s.index r.indexed d reads e),
        )
    | inr (idx, at_idx) ↦
        let (e, at, is_key) = r.indexed.sound key idx at_idx in
        (
          _,
          ground arith,
          Refines-of (set s.entries idx (record e { value = value })) s.index (put key value d)
              (replace-Agrees s.entries s.index r.indexed idx e (record e { value = value }) at
                (λ i. e.key))
              (λ j.
                rw (← is_key) (replace-reads s.entries s.index r.indexed d reads idx e value j at)),
        )
  ]

  swap_remove-Refines :
      (idx : ℕ) (freed : StateEntry)
      → get_elem? s.entries idx ≡ some freed
      → (t : NeuralState) × (swap_remove idx (remove freed.key s.index) s ≡ some t)
        × Refines t (drop_key freed.key d)
  swap_remove-Refines idx freed at =
      let last : ℕ = length s.entries - 1 in
      let inside = within s.entries s.index r.indexed idx freed at in
      let len : length s.entries ≡ suc last = omega arith in
      elim (Bool-cases (idx == last)) [
        | inl at_end ↦
            let here : get_elem? s.entries last ≡ some freed = ground arith in
            (
              _,
              swap_remove_end s idx last (remove freed.key s.index) len at_end,
              Refines-of (take last s.entries) (remove freed.key s.index) (drop_key freed.key d)
                  (drop_last-Agrees s.entries s.index r.indexed last freed len here)
                  (λ j. drop_last-reads s.entries s.index r.indexed d reads last freed j len here),
            )
        | inr before_end ↦
            let (moved, at_last) = get_elem?-within s.entries last (omega arith) in
            let apart : idx ≢ last = λ e. ground arith in
            (
              _,
              swap_remove_inside s idx last (remove freed.key s.index) freed moved len before_end at
                  at_last,
              Refines-of (take last (set (set s.entries idx moved) last freed))
                  (insert moved.key idx (remove freed.key s.index)) (drop_key freed.key d)
                  (unfold swapped in
                    swap-Agrees s.entries s.index r.indexed idx last freed moved len apart at
                      at_last)
                  (λ j.
                    swap-reads s.entries s.index r.indexed d reads idx last freed moved j len apart
                      at at_last),
            )
      ]

  delete_key-hit :
      (idx : ℕ) (freed : StateEntry)
      → lookup freed.key s.index ≡ some idx
      → get_elem? s.entries idx ≡ some freed
      → (t : NeuralState) × (delete_key s freed.key ≡ some (is_some (d freed.key), t))
        × Refines t (drop_key freed.key d)
  unfolding delete_key
  delete_key-hit idx freed at_idx at =
      let (t, done, refines) = swap_remove-Refines idx freed at in
      let held = read-hit s.entries s.index r.indexed d reads freed.key idx freed at_idx at in
      (t, ground arith, refines)

  delete_key-Refines :
      (key : Text)
      → (t : NeuralState) × (delete_key s key ≡ some (is_some (d key), t))
        × Refines t (drop_key key d)
  unfolding delete_key
  delete_key-Refines key = elim (Option-cases (lookup key s.index)) [
    | inl missing ↦
        let absent : d key ≡ none = read-miss s.entries s.index r.indexed d reads key missing in
        (
          s,
          ground arith,
          record { indexed = r.indexed; gets = λ j. ground (arith, r.gets j, text_eq_iff key j) },
        )
    | inr (idx, at_idx) ↦
        let (freed, at, is_key) = r.indexed.sound key idx at_idx in
        subst
          (λ k.
            (t : NeuralState) × (delete_key s k ≡ some (is_some (d k), t))
            × Refines t (drop_key k d))
          is_key (delete_key-hit idx freed (rw is_key at_idx) at)
  ]

unfoldable pub run : (Text → ℕ → List F32) → List Op → NeuralState → Option NeuralState
run embed_key [] s = some s
run embed_key (sets key value ∷ ops) s = elim (set_key embed_key s key value) [
  | none ↦ none
  | some t ↦ run embed_key ops t
]
run embed_key (deletes key ∷ ops) s = elim (delete_key s key) [
  | none ↦ none
  | some (existed, t) ↦ run embed_key ops t
]

-- The dictionary after the same operations.
unfoldable pub run_dict : List Op → Dict → Dict
run_dict [] d = d
run_dict (sets key value ∷ ops) d = run_dict ops (put key value d)
run_dict (deletes key ∷ ops) d = run_dict ops (drop_key key d)

run-Refines :
    (embed_key : Text → ℕ → List F32) (ops : List Op) (s : NeuralState) (d : Dict)
    → Refines s d
    → (t : NeuralState) × (run embed_key ops s ≡ some t) × Refines t (run_dict ops d)
unfolding run run_dict
run-Refines embed_key [] s d r = (s, refl, r)
run-Refines embed_key (sets key value ∷ ops) s d r =
    let (t, done, r') = set_key-Refines s d r embed_key key value in
    let (u, rest, r'') = run-Refines embed_key ops t (put key value d) r' in
    (u, rw (done, run) rest, r'')
run-Refines embed_key (deletes key ∷ ops) s d r =
    let (t, done, r') = delete_key-Refines s d r key in
    let (u, rest, r'') = run-Refines embed_key ops t (drop_key key d) r' in
    (u, rw (done, run) rest, r'')

empty-IsIndexed : IsIndexed new_state
unfolding new_state lookup
empty-IsIndexed = record { sound = λ k i h. absurd (cc h); complete = λ i e h. absurd (cc h) }

-- From the empty store, any sequence of sets and deletes ends without a panic in a sound store in
-- which every lookup gives what the dictionary holds after the same sequence.
pub run-new_state :
    (embed_key : Text → ℕ → List F32) (ops : List Op)
    → (t : NeuralState) × (run embed_key ops new_state ≡ some t)
      × Refines t (run_dict ops (λ k. none))
unfolding new_state get_key lookup
run-new_state embed_key ops =
    run-Refines embed_key ops new_state (λ k. none)
      (record { indexed = empty-IsIndexed; gets = λ k. refl })

-- `delete` answers whether the key was there, and then it is gone and every other key stays.
pub delete_key-result :
    (s : NeuralState) (d : Dict) (key : Text)
    → Refines s d
    → (t : NeuralState) × (delete_key s key ≡ some (is_some (d key), t))
      × Refines t (drop_key key d)
delete_key-result s d key r = delete_key-Refines s d r key
