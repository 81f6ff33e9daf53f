-- ===== src/NeuralState/Invariant.antt =====
-- The index and the entries agree, and every operation keeps it so and does not panic.
use royak.Prelude.{
  get_elem?-take, lookup-remove, if◌then◌else◌, remove, ◌≢◌, take, suc, text_eq_iff,
  lookup-insert_self, text_eq_sound, get_elem?-push, get_elem?-beyond, get_elem?-set, lookup-insert,
  inr, arith, text_eq, ltb→lt, insert, inl, ◌==◌, [], ltb, Bool-cases, ◌∷◌, length, set, ◌++◌, ◌<◌,
  none, some, ◌≡◌, lookup, get_elem?, Text, ℕ, Map, List,
}
use royak.NeuralState.{NeuralState, StateEntry}

-- The index gives each entry's position under its key, and nothing else.
pub record Agrees (entries : List StateEntry) (index : Map ℕ) : Type 0 where
  pub sound :
      (k : Text) (i : ℕ)
      → lookup k index ≡ some i
      → (e : StateEntry) × (get_elem? entries i ≡ some e) × (e.key ≡ k)
  pub complete :
      (i : ℕ) (e : StateEntry) → get_elem? entries i ≡ some e → lookup e.key index ≡ some i

abbrev pub IsIndexed : NeuralState → Type 0
IsIndexed s = Agrees s.entries s.index

module _ (es : List StateEntry) (ix : Map ℕ) (v : Agrees es ix) where
  pub within : (i : ℕ) (e : StateEntry) → get_elem? es i ≡ some e → i < length es
  within i e h = elim (Bool-cases (ltb i (length es))) [
    | inl l ↦ ltb→lt _ _ l
    | inr g ↦ absurd (cc (h, get_elem?-beyond es i (ground arith)))
  ]

  pub push-Agrees :
      (e : StateEntry)
      → lookup e.key ix ≡ none
      → Agrees (es ++ e ∷ []) (insert e.key (length es) ix)
  push-Agrees e fresh = record {
    sound = λ k i h. elim (Bool-cases (text_eq e.key k)) [
      | inl same ↦ (
        e,
        ground (arith, lookup-insert e.key k (length es) ix, get_elem?-push es e i),
        text_eq_sound e.key k same,
      )
      | inr other ↦
          let (e0, at, is_k) = v.sound k i (ground (arith, lookup-insert e.key k (length es) ix)) in
          (e0, ground (arith, get_elem?-push es e i, within i e0 at), is_k)
    ];
    complete = λ i e0 h. elim (Bool-cases (i == length es)) [
      | inl new ↦
          let is_e : e ≡ e0 = ground (arith, get_elem?-push es e i) in
          ground (arith, lookup-insert_self e.key (length es) ix)
      | inr old ↦
          let there : lookup e0.key ix ≡ some i =
            v.complete i e0 (ground (arith, get_elem?-push es e i)) in
          ground (arith, lookup-insert e.key e0.key (length es) ix, text_eq_iff e.key e0.key)
    ];
  }

  pub replace-Agrees :
      (i : ℕ) (e e' : StateEntry)
      → get_elem? es i ≡ some e
      → e'.key ≡ e.key
      → Agrees (set es i e') ix
  replace-Agrees i e e' at same_key = record {
    sound = λ k j h.
        let (e0, at0, is_k) = v.sound k j h in
        elim (Bool-cases (i == j)) [
          | inl same ↦ (e', ground (arith, get_elem?-set es i j e', within i e at), ground arith)
          | inr other ↦ (e0, ground (arith, get_elem?-set es i j e'), is_k)
        ];
    complete = λ j e0 h. elim (Bool-cases (i == j)) [
      | inl same ↦
          let is_e : e' ≡ e0 = ground (arith, get_elem?-set es i j e', within i e at) in
          ground (arith, v.complete i e at)
      | inr other ↦ v.complete j e0 (ground (arith, get_elem?-set es i j e'))
    ];
  }

  pub drop_last-Agrees :
      (last : ℕ) (e : StateEntry)
      → length es ≡ suc last
      → get_elem? es last ≡ some e
      → Agrees (take last es) (remove e.key ix)
  drop_last-Agrees last e len at = record {
    sound = λ k i h.
        let (e0, at0, is_k) = v.sound k i (ground (arith, lookup-remove e.key k ix)) in
        (
          e0,
          ground (
            arith,
            get_elem?-take last es i,
            within i e0 at0,
            lookup-remove e.key k ix,
            text_eq_iff e.key k,
          ),
          is_k,
        );
    complete = λ i e0 h.
        let old : get_elem? es i ≡ some e0 = ground (arith, get_elem?-take last es i) in
        ground (
          arith,
          get_elem?-take last es i,
          v.complete i e0 old,
          v.complete last e at,
          lookup-remove e.key e0.key ix,
          text_eq_iff e.key e0.key,
        );
  }

  module _ (idx last : ℕ) (freed moved : StateEntry) (len : length es ≡ suc last)
      (apart : idx ≢ last) (at_idx : get_elem? es idx ≡ some freed)
      (at_last : get_elem? es last ≡ some moved) where
    unfoldable pub swapped : List StateEntry
    swapped = take last (set (set es idx moved) last freed)

    -- What the freed slot and the others hold after the swap.
    pub get-swapped :
        (i : ℕ)
        → get_elem? swapped i
          ≡ (if ltb i last then if idx == i then some moved else get_elem? es i else none)
    unfolding swapped
    get-swapped i = ground (
      arith,
      get_elem?-take last (set (set es idx moved) last freed) i,
      get_elem?-set (set es idx moved) last i freed,
      get_elem?-set es idx i moved,
      within idx freed at_idx,
    )

    pub swap-Agrees : Agrees swapped (insert moved.key idx (remove freed.key ix))
    swap-Agrees = record {
      sound = λ k i h. elim (Bool-cases (text_eq moved.key k)) [
        | inl same ↦ (
          moved,
          ground (
            arith,
            get-swapped i,
            within idx freed at_idx,
            lookup-insert moved.key k idx (remove freed.key ix),
          ),
          text_eq_sound moved.key k same,
        )
        | inr other ↦
            let (e0, at0, is_k) = v.sound k i (
              ground (
                arith,
                lookup-insert moved.key k idx (remove freed.key ix),
                lookup-remove freed.key k ix,
              )) in
            (
              e0,
              ground (
                arith,
                get-swapped i,
                within i e0 at0,
                lookup-remove freed.key k ix,
                lookup-insert moved.key k idx (remove freed.key ix),
                text_eq_iff freed.key k,
                text_eq_iff moved.key k,
              ),
              is_k,
            )
      ];
      complete = λ i e0 h. elim (Bool-cases (idx == i)) [
        | inl same ↦
            let is_moved : moved ≡ e0 = ground (arith, get-swapped i) in
            ground (arith, lookup-insert_self moved.key idx (remove freed.key ix))
        | inr other ↦
            let old : get_elem? es i ≡ some e0 = ground (arith, get-swapped i) in
            ground (
              arith,
              get-swapped i,
              v.complete i e0 old,
              v.complete last moved at_last,
              v.complete idx freed at_idx,
              lookup-insert moved.key e0.key idx (remove freed.key ix),
              lookup-remove freed.key e0.key ix,
              text_eq_iff moved.key e0.key,
              text_eq_iff freed.key e0.key,
            )
      ];
    }
