-- ===== src/NeuralState/Persist/RoundTrip.antt =====
-- `load` reads back what `save` has written.
use royak.NeuralState.Invariant.{IsIndexed, push-Agrees, within, Agrees}
use royak.Prelude.{
  get_elem?-append_left, inl, text_eq, inr, none, ◌^◌, Option-cases, get_elem?-append_at, lookup,
  get_elem?, ◌∙◌, sym, subst, append-nil, insert, suc, Map, All, length, take, drop, length-append,
  take-append, drop-append, le_bytes, of_le, length-le_bytes, of_le-le_bytes, Text, ℕ, ◌*◌, ◌%◌,
  ◌<◌, ◌≡◌, refl, Bool, true, some, List, [], ◌∷◌, ◌++◌, append_assoc, arith,
}
use royak.World.Workloads.{F32}
use royak.NeuralState.{NeuralState, StateEntry}
use royak.NeuralState.Persist.{
  encode, decode, encode_entries, decode_entries, u32_mod, loaded, encode_floats, encode_entry,
  split_bytes, read_floats, decode_entry,
}

-- What the format can hold: lengths and floats of 32 bits, embeddings of the stated dimension and
-- keys that are valid text.
pub record Fits (lossy : List ℕ → Text) (dim : ℕ) (e : StateEntry) : Type 0 where
  pub key_text : lossy e.key ≡ e.key
  pub key_length : length e.key < u32_mod
  pub value_length : length e.value < u32_mod
  pub embedding_length : length e.embedding ≡ dim
  pub embedding_words : All (λ x. x < u32_mod) e.embedding

split_bytes-append : (xs ys : List ℕ) → split_bytes (length xs) (xs ++ ys) ≡ some (xs, ys)
unfolding split_bytes
split_bytes-append xs ys = ground (arith, take-append xs ys, drop-append xs ys, length-append xs ys)

take-at {ℓ} : {A : Type ℓ} (n : ℕ) (xs ys : List A) → length xs ≡ n → take n (xs ++ ys) ≡ xs
take-at n xs ys h = rw (← h) (take-append xs ys)

drop-at {ℓ} : {A : Type ℓ} (n : ℕ) (xs ys : List A) → length xs ≡ n → drop n (xs ++ ys) ≡ ys
drop-at n xs ys h = rw (← h) (drop-append xs ys)

split_bytes-at : (n : ℕ) (xs ys : List ℕ) → length xs ≡ n → split_bytes n (xs ++ ys) ≡ some (xs, ys)
split_bytes-at n xs ys h = rw (← h) (split_bytes-append xs ys)

length-encode_floats : (xs : List F32) → length (encode_floats xs) ≡ length xs * 4
unfolding encode_floats
length-encode_floats [] = refl
length-encode_floats (x ∷ xs) = omega (
  arith,
  length-append (le_bytes 4 x) (encode_floats xs),
  length-le_bytes 4 x,
  length-encode_floats xs,
)

read_floats-encode_floats :
    (xs : List F32) → All (λ x. x < u32_mod) xs → read_floats (length xs) (encode_floats xs) ≡ xs
unfolding encode_floats read_floats
read_floats-encode_floats [] h = refl
read_floats-encode_floats (x ∷ xs) h = ground (
  arith,
  take-at 4 (le_bytes 4 x) (encode_floats xs) (length-le_bytes 4 x),
  drop-at 4 (le_bytes 4 x) (encode_floats xs) (length-le_bytes 4 x),
  of_le-le_bytes 4 x h.0,
  read_floats-encode_floats xs h.1,
)

of_len : (n : ℕ) → n < u32_mod → of_le (le_bytes 4 (n % u32_mod)) ≡ n
of_len n h = omega (arith, of_le-le_bytes 4 (n % u32_mod))

-- The index that `load` builds.
reindex : ℕ → List StateEntry → Map ℕ → Map ℕ
reindex i [] ix = ix
reindex i (e ∷ es) ix = reindex (suc i) es (insert e.key i ix)

-- It agrees with the entries, if another index does.
reindex-Agrees :
    (all : List StateEntry) (ix : Map ℕ) (done rest : List StateEntry) (jx : Map ℕ)
    → Agrees all ix
    → all ≡ done ++ rest
    → Agrees done jx
    → Agrees all (reindex (length done) rest jx)
unfolding reindex
reindex-Agrees all ix done [] jx v split w =
    subst (λ es. Agrees es jx) (sym (split ∙ append-nil done)) w
reindex-Agrees all ix done (e ∷ rest) jx v split w =
    let e_at : get_elem? all (length done) ≡ some e = rw split (get_elem?-append_at done rest e) in
    let fresh : lookup e.key jx ≡ none = elim (Option-cases (lookup e.key jx)) [
      | inl none_there ↦ none_there
      | inr (j, hit) ↦
          let (e0, at, is_key) = w.sound e.key j hit in
          let at_all : get_elem? all j ≡ some e0 =
            rw split (get_elem?-append_left done (e ∷ rest) j e0 at) in
          let same : length done ≡ j =
            ground (arith, v.complete j e0 at_all, v.complete (length done) e e_at) in
          absurd (omega (arith, within done jx w j e0 at))
    ] in
    let grown : length (done ++ e ∷ []) ≡ suc (length done) =
      omega (arith, length-append done (e ∷ [])) in
    subst (λ n. Agrees all (reindex n rest (insert e.key (length done) jx))) grown
      (reindex-Agrees all ix (done ++ e ∷ []) rest (insert e.key (length done) jx) v
        (split ∙ sym (append_assoc done (e ∷ []) rest)) (push-Agrees done jx w e fresh))

module _ (lossy : List ℕ → Text) (dim : ℕ) where
  decode_entry-encode_entry :
      (i : ℕ) (e : StateEntry) (rest : List ℕ)
      → Fits lossy dim e
      → decode_entry lossy dim i (encode_entry e ++ rest) ≡ loaded (e, rest)
  unfolding decode_entry encode_entry
  decode_entry-encode_entry i e rest fits =
      let k4 = le_bytes 4 (length e.key % u32_mod) in
      let v4 = le_bytes 4 (length e.value % u32_mod) in
      let floats = encode_floats e.embedding in
      let tail4 = v4 ++ (e.value ++ rest) in
      let shape : encode_entry e ++ rest ≡ k4 ++ (e.key ++ (floats ++ tail4)) = simp append_assoc in
      let floats_len : length floats ≡ dim * 4 =
        omega (arith, length-encode_floats e.embedding, fits.embedding_length) in
      let floats_back : read_floats dim floats ≡ e.embedding =
        rw (← fits.embedding_length) (read_floats-encode_floats e.embedding fits.embedding_words) in
      rw shape (
        ground (
          arith,
          split_bytes-at 4 k4 (e.key ++ (floats ++ tail4))
              (length-le_bytes 4 (length e.key % u32_mod)),
          of_len (length e.key) fits.key_length,
          split_bytes-append e.key (floats ++ tail4),
          split_bytes-at (dim * 4) floats tail4 floats_len,
          split_bytes-at 4 v4 (e.value ++ rest) (length-le_bytes 4 (length e.value % u32_mod)),
          of_len (length e.value) fits.value_length,
          split_bytes-append e.value rest,
          floats_back,
          fits.key_text,
        ))

  decode_entries-encode_entries :
      (i : ℕ) (es done : List StateEntry) (ix : Map ℕ) (rest : List ℕ)
      → All (Fits lossy dim) es
      → decode_entries lossy dim i (length es) (encode_entries es ++ rest) done ix
        ≡ loaded (done ++ es, reindex i es ix)
  unfolding decode_entries encode_entries reindex
  decode_entries-encode_entries i [] done ix rest fits = ground (arith, append-nil done)
  decode_entries-encode_entries i (e ∷ es) done ix rest fits =
      let shape : encode_entries (e ∷ es) ++ rest ≡ encode_entry e ++ (encode_entries es ++ rest) =
        append_assoc (encode_entry e) (encode_entries es) rest in
      ground (
        arith,
        shape,
        decode_entry-encode_entry i e (encode_entries es ++ rest) fits.0,
        decode_entries-encode_entries (suc i) es (done ++ e ∷ []) (insert e.key i ix) rest fits.1,
        append_assoc done (e ∷ []) es,
      )

-- The entries determine the index, up to the order of its keys.
Agrees-lookup :
    (es : List StateEntry) (ix jx : Map ℕ) (k : Text)
    → Agrees es ix
    → Agrees es jx
    → lookup k ix ≡ lookup k jx
Agrees-lookup es ix jx k v w = elim (Option-cases (lookup k ix)) [
  | inr (i, hit) ↦ let (e, at, is_k) = v.sound k i hit in ground (arith, w.complete i e at)
  | inl miss ↦ elim (Option-cases (lookup k jx)) [
    | inl miss' ↦ cc
    | inr (j, hit) ↦ let (e, at, is_k) = w.sound k j hit in ground (arith, v.complete j e at)
  ]
]

-- What `save` can write of a whole store without cutting a number off.
pub record FitsAll (lossy : List ℕ → Text) (s : NeuralState) : Type 0 where
  pub count : length s.entries < u32_mod
  pub dim : s.dim < u32_mod
  pub version : s.version < 2 ^ 64
  pub entries : All (Fits lossy s.dim) s.entries

one_read : of_le (1 ∷ 0 ∷ 0 ∷ 0 ∷ []) ≡ 1
unfolding of_le
one_read = refl

module _ (lossy : List ℕ → Text) (can_reserve : ℕ → Bool) where
  header :
      (s : NeuralState)
      → FitsAll lossy s
      → can_reserve (length s.entries) ≡ true
      → decode lossy can_reserve (encode s)
        ≡ loaded (record {
          dim = s.dim;
          entries = s.entries;
          index = reindex 0 s.entries [];
          key_matrix = none;
          version = s.version;
        })
  unfolding decode encode le_bytes text_eq
  header s fits room =
      let body : decode_entries lossy s.dim 0 (length s.entries) (encode_entries s.entries) [] []
          ≡ loaded (s.entries, reindex 0 s.entries []) =
        rw append-nil at
          (decode_entries-encode_entries lossy s.dim 0 s.entries [] [] [] fits.entries) in
      ground (
        arith,
        of_len (length s.entries) fits.count,
        of_len s.dim fits.dim,
        of_le-le_bytes 8 s.version fits.version,
        body,
        one_read,
      )

  -- Saving a sound store and loading it back, where there is memory for its entries, gives its
  -- entries, dimension and counter, and an index that is sound and finds the same positions.
  pub decode-encode :
      (s : NeuralState)
      → IsIndexed s
      → FitsAll lossy s
      → can_reserve (length s.entries) ≡ true
      → (t : NeuralState) × (decode lossy can_reserve (encode s) ≡ loaded t)
        × (t.entries ≡ s.entries)
        × (t.dim ≡ s.dim)
        × (t.version ≡ s.version)
        × IsIndexed t
        × ((k : Text) → lookup k t.index ≡ lookup k s.index)
  decode-encode s v fits room =
      let rebuilt : Agrees s.entries (reindex 0 s.entries []) =
        reindex-Agrees s.entries s.index [] s.entries [] v refl nothing-Agrees in
      (
        _,
        header s fits room,
        refl,
        refl,
        refl,
        rebuilt,
        λ k. Agrees-lookup s.entries (reindex 0 s.entries []) s.index k rebuilt v,
      )
    where
      nothing-Agrees : Agrees [] []
      nothing-Agrees = record {
        sound = λ k i h. absurd (unfold lookup in cc h);
        complete = λ i e h. absurd (cc h);
      }
