-- ===== src/Raft/Log.antt =====
-- The Raft log as a partial function from indices to entries.
use royak.Prelude.{
  ltb, ◌==◌, if◌then◌else◌, ltb→lt, ==_iff, Bool-cases, Option-cases, is_some, ℕ, suc, ◌≤◌, ◌<◌,
  ◌≡◌, refl, ap, inl, inr, Bool, true, false, none, some, List, [], ◌∷◌, arith,
}
use royak.Raft.{insert_at, get_at, last_value, in_range, remove_at, remove_keys}

-- Every key is above the bound, and the keys increase.
unfoldable pub Above {ℓ} : {V : Type ℓ} → ℕ → List (ℕ × V) → Type 0
Above lo [] = Unit
Above lo ((k, v) ∷ m) = (lo ≤ k) × Above (suc k) m

above : (k j : ℕ) → ltb k j ≡ false → (k == j) ≡ false → suc j ≤ k
above k j e f = ground arith

module _ {ℓ} {V : Type ℓ} where
  Above-weaken : {lo hi : ℕ} (m : List (ℕ × V)) → lo ≤ hi → Above hi m → Above lo m
  unfolding Above
  Above-weaken [] h a = tt
  Above-weaken ((k, v) ∷ m) h a = (omega (arith, a.0), a.1)

  get_at-below : (lo k : ℕ) (m : List (ℕ × V)) → Above lo m → k < lo → get_at k m ≡ none
  unfolding Above get_at
  get_at-below lo k [] a h = refl
  get_at-below lo k ((j, v) ∷ m) a h =
      ground (arith, a.0, get_at-below (suc j) k m a.1 (omega (arith, a.0)))

  pub get_at-insert_at :
      (k j : ℕ) (v : V) (m : List (ℕ × V))
      → get_at j (insert_at k v m) ≡ (if k == j then some v else get_at j m)
  unfolding get_at insert_at
  get_at-insert_at k j v [] = refl
  get_at-insert_at k j v ((i, w) ∷ m) = ground (arith, get_at-insert_at k j v m)

  get_at-remove_at :
      (k j : ℕ) (m : List (ℕ × V))
      → get_at j (remove_at k m) ≡ (if k == j then none else get_at j m)
  unfolding get_at remove_at
  get_at-remove_at k j [] = ground arith
  get_at-remove_at k j ((i, w) ∷ m) = ground (arith, get_at-remove_at k j m)

  get_at-in_range :
      (p : ℕ → Bool) (j : ℕ) (m : List (ℕ × V))
      → get_at j (in_range p m) ≡ (if p j then get_at j m else none)
  unfolding get_at in_range
  get_at-in_range p j [] = ground arith
  get_at-in_range p j ((i, w) ∷ m) = elim (Bool-cases (i == j)) [
    | inl e ↦
        let same : i ≡ j = (==_iff i j).0 e in
        ground (arith, same, ap p same, get_at-in_range p j m)
    | inr e ↦ ground (arith, get_at-in_range p j m)
  ]

  get_at-remove_keys :
      (ks m : List (ℕ × V)) (j : ℕ)
      → get_at j (remove_keys ks m) ≡ (if is_some (get_at j ks) then none else get_at j m)
  unfolding get_at remove_keys
  get_at-remove_keys [] m j = refl
  get_at-remove_keys ((k, v) ∷ ks) m j =
      ground (arith, get_at-remove_keys ks (remove_at k m) j, get_at-remove_at k j m)

  -- Taking away the keys of a range keeps the entries outside it.
  pub get_at-drop_range :
      (p : ℕ → Bool) (m : List (ℕ × V)) (j : ℕ)
      → get_at j (remove_keys (in_range p m) m) ≡ (if p j then none else get_at j m)
  get_at-drop_range p m j =
      ground (arith, get_at-remove_keys (in_range p m) m j, get_at-in_range p j m)

  if-Above :
      (lo : ℕ) (x y : List (ℕ × V)) (b : Bool)
      → (b ≡ true → Above lo x)
      → (b ≡ false → Above lo y)
      → Above lo (if b then x else y)
  if-Above lo x y true f g = f refl
  if-Above lo x y false f g = g refl

  Above-same : (k j : ℕ) (m : List (ℕ × V)) → k ≡ j → Above (suc j) m → Above (suc k) m
  Above-same k j m e a = Above-weaken m (omega arith) a

  pub insert_at-Above :
      (lo k : ℕ) (v : V) (m : List (ℕ × V)) → lo ≤ k → Above lo m → Above lo (insert_at k v m)
  unfolding Above insert_at
  insert_at-Above lo k v [] h a = (h, tt)
  insert_at-Above lo k v ((j, w) ∷ m) h a =
      let rest = insert_at-Above (suc j) k v m in
      if-Above lo _ _ (ltb k j) (λ e. (h, (ltb→lt k j e, a.1)))
        (λ e.
          if-Above lo _ _ (k == j) (λ f. (h, Above-same k j m ((==_iff k j).0 f) a.1))
            (λ f. (a.0, rest (above k j e f) a.1)))

  remove_at-Above : (lo k : ℕ) (m : List (ℕ × V)) → Above lo m → Above lo (remove_at k m)
  unfolding Above remove_at
  remove_at-Above lo k [] a = tt
  remove_at-Above lo k ((j, w) ∷ m) a =
      let rest = remove_at-Above (suc j) k m a.1 in
      if-Above lo _ _ (j == k) (λ e. Above-weaken (remove_at k m) (omega (arith, a.0)) rest)
        (λ e. (a.0, rest))

  pub remove_keys-Above : (lo : ℕ) (ks m : List (ℕ × V)) → Above lo m → Above lo (remove_keys ks m)
  unfolding remove_keys
  remove_keys-Above lo [] m a = a
  remove_keys-Above lo ((k, v) ∷ ks) m a =
      remove_keys-Above lo ks (remove_at k m) (remove_at-Above lo k m a)

  pub last_value-none : (m : List (ℕ × V)) (j : ℕ) → last_value m ≡ none → get_at j m ≡ none
  unfolding last_value get_at
  last_value-none [] j h = refl
  last_value-none ((i, w) ∷ m) j h = ground (arith, last_value-none m j)

  -- The last value of an ordered map is the one at its greatest key.
  pub last_value-some :
      (lo : ℕ) (m : List (ℕ × V)) (v : V)
      → Above lo m
      → last_value m ≡ some v
      → (k : ℕ) × (lo ≤ k) × (get_at k m ≡ some v) × ((j : ℕ) → k < j → get_at j m ≡ none)
  unfolding Above last_value get_at
  last_value-some lo [] v a h = absurd (cc h)
  last_value-some lo ((i, w) ∷ m) v a h = elim (Option-cases (last_value m)) [
    | inl e ↦ (i, a.0, ground arith, λ j l. ground (arith, last_value-none m j e))
    | inr (u, e) ↦
        let (k, le, got, later) = last_value-some (suc i) m v a.1 (ground arith) in
        (k, omega (arith, a.0, le), ground (arith, le, got), λ j l. ground (arith, le, later j l))
  ]
