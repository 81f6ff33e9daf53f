-- ===== src/NeuralState/Reads.antt =====
-- Lookups in the index and the entries, against a dictionary, for each shape of a change.
use royak.NeuralState.{StateEntry}
use royak.NeuralState.Invariant.{get-swapped, within, swapped, Agrees}
use royak.Prelude.{
  get_elem?-take, get_elem?-set, inr, get_elem?-push, lookup-insert, lookup-remove, text_eq_iff,
  Bool-cases, remove, inl, insert, ◌≢◌, take, Option-cases, [], suc, set, ◌∷◌, length, ◌++◌, arith,
  get_elem?, none, some, ◌≡◌, lookup, text_eq, Map, if◌then◌else◌, ℕ, Option, List, Text,
}

abbrev pub Dict : Type 0
Dict = Text → Option (List ℕ)

abbrev pub put : Text → List ℕ → Dict → Dict
put key value d j = if text_eq key j then some value else d j

abbrev pub drop_key : Text → Dict → Dict
drop_key key d j = if text_eq key j then none else d j

-- A lookup through an index and a vector.
unfoldable pub read : List StateEntry → Map ℕ → Text → Option (Option (List ℕ))
read es ix k = elim (lookup k ix) [
  | none ↦ some none
  | some i ↦ elim (get_elem? es i) [ none ↦ none | some e ↦ some (some e.value) ]
]

module _ (es : List StateEntry) (ix : Map ℕ) (v : Agrees es ix) (d : Dict)
    (gets : (k : Text) → read es ix k ≡ some (d k)) where
  -- A read that hits gives the entry's value.
  pub read-hit :
      (j : Text) (i : ℕ) (e : StateEntry)
      → lookup j ix ≡ some i
      → get_elem? es i ≡ some e
      → d j ≡ some e.value
  unfolding read
  read-hit j i e hit at = ground (arith, gets j)

  pub read-miss : (j : Text) → lookup j ix ≡ none → d j ≡ none
  unfolding read
  read-miss j miss = ground (arith, gets j)

  pub push-reads :
      (e : StateEntry) (j : Text)
      → read (es ++ e ∷ []) (insert e.key (length es) ix) j ≡ some (put e.key e.value d j)
  unfolding read
  push-reads e j = elim (Bool-cases (text_eq e.key j)) [
    | inl same ↦
        ground (arith, lookup-insert e.key j (length es) ix, get_elem?-push es e (length es))
    | inr other ↦ elim (Option-cases (lookup j ix)) [
      | inl miss ↦ ground (arith, lookup-insert e.key j (length es) ix, read-miss j miss)
      | inr (i, hit) ↦
          let (e0, at, is_j) = v.sound j i hit in
          ground (
            arith,
            lookup-insert e.key j (length es) ix,
            get_elem?-push es e i,
            within es ix v i e0 at,
            read-hit j i e0 hit at,
          )
    ]
  ]

  pub replace-reads :
      (idx : ℕ) (e : StateEntry) (value : List ℕ) (j : Text)
      → get_elem? es idx ≡ some e
      → read (set es idx (record e { value = value })) ix j ≡ some (put e.key value d j)
  unfolding read
  replace-reads idx e value j at = elim (Option-cases (lookup j ix)) [
    | inl miss ↦ ground (arith, read-miss j miss, v.complete idx e at, text_eq_iff e.key j)
    | inr (i, hit) ↦
        let (e0, at0, is_j) = v.sound j i hit in
        ground (
          arith,
          get_elem?-set es idx i (record e { value = value }),
          within es ix v i e0 at0,
          read-hit j i e0 hit at0,
          v.complete idx e at,
          text_eq_iff e.key j,
        )
  ]

  pub drop_last-reads :
      (last : ℕ) (e : StateEntry) (j : Text)
      → length es ≡ suc last
      → get_elem? es last ≡ some e
      → read (take last es) (remove e.key ix) j ≡ some (drop_key e.key d j)
  unfolding read
  drop_last-reads last e j len at = elim (Option-cases (lookup j ix)) [
    | inl miss ↦ ground (arith, lookup-remove e.key j ix, read-miss j miss)
    | inr (i, hit) ↦
        let (e0, at0, is_j) = v.sound j i hit in
        ground (
          arith,
          lookup-remove e.key j ix,
          get_elem?-take last es i,
          within es ix v i e0 at0,
          read-hit j i e0 hit at0,
          text_eq_iff e.key j,
        )
  ]

  pub swap-reads :
      (idx last : ℕ) (freed moved : StateEntry) (j : Text)
      → (len : length es ≡ suc last) → (apart : idx ≢ last)
      → (at_idx : get_elem? es idx ≡ some freed) → (at_last : get_elem? es last ≡ some moved)
      → read
          (take last (set (set es idx moved) last freed))
          (insert moved.key idx (remove freed.key ix))
          j
        ≡ some (drop_key freed.key d j)
  unfolding read swapped
  swap-reads idx last freed moved j len apart at_idx at_last = elim (Option-cases (lookup j ix)) [
    | inl miss ↦ ground (
      arith,
      lookup-insert moved.key j idx (remove freed.key ix),
      lookup-remove freed.key j ix,
      read-miss j miss,
      v.complete last moved at_last,
      text_eq_iff moved.key j,
    )
    | inr (i, hit) ↦
        let (e0, at0, is_j) = v.sound j i hit in
        ground (
          arith,
          lookup-insert moved.key j idx (remove freed.key ix),
          lookup-remove freed.key j ix,
          get-swapped es ix v idx last freed moved len apart at_idx at_last i,
          get-swapped es ix v idx last freed moved len apart at_idx at_last idx,
          within es ix v i e0 at0,
          within es ix v idx freed at_idx,
          read-hit j i e0 hit at0,
          v.complete last moved at_last,
          v.complete idx freed at_idx,
          text_eq_iff moved.key j,
          text_eq_iff freed.key j,
        )
  ]
