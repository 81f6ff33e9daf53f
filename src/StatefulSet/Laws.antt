-- ===== src/StatefulSet/Laws.antt =====
-- The ordinal that `next_statefulset_ordinal` picks, and how a set fills up tick by tick.
use royak.Prelude.{
  ◌&&◌, leb, ==_iff, ◌==◌, ◌≢◌, subst, ℕ, zero, suc, ◌+◌, ◌-◌, ◌≤◌, ◌<◌, ◌≡◌, refl, ◌⊎◌, inl, inr,
  ◌↔◌, true, false, none, some, List, [], ◌∷◌, arith, any, Bool-cases, Option-cases,
}
use royak.StatefulSet.{member, first_missing, next_statefulset_ordinal}

-- `k` is the lowest ordinal from `lo` up, below `bound`, that does not exist.
pub record IsLowestMissing (existing : List ℕ) (lo bound k : ℕ) : Type 0 where
  pub lower : lo ≤ k
  pub upper : k < bound
  pub absent : member k existing ≡ false
  pub below : (j : ℕ) → lo ≤ j → j < k → member j existing ≡ true

-- The Kubernetes guarantee: the lowest hole among 1 to the desired count, once the pod before it is
-- ready.
pub record IsEligible (existing ready : List ℕ) (desired_count k : ℕ) : Type 0 where
  pub lowest : IsLowestMissing existing 1 (1 + desired_count) k
  pub gate : (k ≡ 1) ⊎ (member (k - 1) ready ≡ true)

module _ (existing : List ℕ) where
  below_step :
      {lo k : ℕ}
      → member lo existing ≡ true
      → ((j : ℕ) → suc lo ≤ j → j < k → member j existing ≡ true)
      → (j : ℕ) → lo ≤ j
      → j < k
      → member j existing ≡ true
  below_step {lo} {k} here above j l u = elim (Bool-cases (j == lo)) [
    | inl e ↦ rw ((==_iff j lo).0 e) here
    | inr e ↦ above j (ground arith) u
  ]

  first_missing_sound :
      (lo left m : ℕ)
      → first_missing existing lo left ≡ some m
      → IsLowestMissing existing lo (lo + left) m
  unfolding first_missing
  first_missing_sound lo zero m h = absurd (cc h)
  first_missing_sound lo (suc left) m h = elim (Bool-cases (member lo existing)) [
    | inl there ↦
        let v : IsLowestMissing existing (suc lo) (suc lo + left) m =
          first_missing_sound (suc lo) left m (ground arith) in
        record {
          lower = omega (arith, v.lower);
          upper = omega (arith, v.upper);
          absent = v.absent;
          below = below_step there v.below;
        }
    | inr hole ↦
        let e : lo ≡ m = ground arith in
        subst (IsLowestMissing existing lo (lo + suc left)) e (record {
          lower = omega arith;
          upper = omega arith;
          absent = hole;
          below = λ j l u. absurd (omega arith);
        })
  ]

  first_missing_complete :
      (lo left m : ℕ)
      → IsLowestMissing existing lo (lo + left) m
      → first_missing existing lo left ≡ some m
  unfolding first_missing
  first_missing_complete lo zero m v = absurd (omega (arith, v.lower, v.upper))
  first_missing_complete lo (suc left) m v = elim (Bool-cases (member lo existing)) [
    | inl there ↦
        let further : lo ≢ m = λ e. cc (there, v.absent, e) in
        let rest : first_missing existing (suc lo) left ≡ some m =
          first_missing_complete (suc lo) left m (record {
            lower = omega (arith, v.lower);
            upper = omega (arith, v.upper);
            absent = v.absent;
            below = λ j l u. v.below j (omega arith) u;
          }) in
        ground arith
    | inr hole ↦ elim (Bool-cases (lo == m)) [
      | inl e ↦ ground arith
      | inr e ↦ absurd (cc (hole, v.below lo (omega arith) (ground arith)))
    ]
  ]

module _ (existing ready : List ℕ) (desired_count k : ℕ) where
  next_ordinal_sound :
      next_statefulset_ordinal existing ready desired_count ≡ some k
      → IsEligible existing ready desired_count k
  unfolding next_statefulset_ordinal
  next_ordinal_sound h = elim (Option-cases (first_missing existing 1 desired_count)) [
    | inl e ↦ ground arith
    | inr (m, e) ↦
        let same : m ≡ k = ground arith in
        let v : IsLowestMissing existing 1 (1 + desired_count) m =
          first_missing_sound existing 1 desired_count m e in
        record {
          lowest = subst (IsLowestMissing existing 1 (1 + desired_count)) same v;
          gate = ground arith;
        }
  ]

  next_ordinal_complete :
      IsEligible existing ready desired_count k
      → next_statefulset_ordinal existing ready desired_count ≡ some k
  unfolding next_statefulset_ordinal
  next_ordinal_complete v =
      let l = v.lowest in
      let e : first_missing existing 1 desired_count ≡ some k =
        first_missing_complete existing 1 desired_count k l in
      ground (arith, v.gate, l.lower, l.upper)

-- An ordinal is created in a tick exactly if it is the lowest hole and its predecessor is ready.
pub next_statefulset_ordinal_iff :
    (existing ready : List ℕ) (desired_count k : ℕ)
    → (next_statefulset_ordinal existing ready desired_count ≡ some k)
      ↔ IsEligible existing ready desired_count k
next_statefulset_ordinal_iff existing ready desired_count k = (
  next_ordinal_sound existing ready desired_count k,
  next_ordinal_complete existing ready desired_count k,
)

-- One tick of an environment in which every created pod is ready by the next tick.
tick : ℕ → List ℕ → List ℕ
tick desired_count existing = elim (next_statefulset_ordinal existing existing desired_count) [
  | none ↦ existing
  | some k ↦ k ∷ existing
]

pub ticks : ℕ → ℕ → List ℕ → List ℕ
ticks zero desired_count existing = existing
ticks (suc n) desired_count existing = tick desired_count (ticks n desired_count existing)

-- n, n - 1, …, 1
pub count_down : ℕ → List ℕ
count_down zero = []
count_down (suc n) = suc n ∷ count_down n

member-count_down : (n j : ℕ) → member j (count_down n) ≡ leb 1 j && leb j n
unfolding member count_down any
member-count_down zero j = ground arith
member-count_down (suc n) j = ground (arith, member-count_down n j)

next-count_down :
    (n desired_count : ℕ)
    → n < desired_count
    → next_statefulset_ordinal (count_down n) (count_down n) desired_count ≡ some (suc n)
next-count_down n desired_count h =
    next_ordinal_complete (count_down n) (count_down n) desired_count (suc n) (record {
      lowest = record {
        lower = omega arith;
        upper = omega arith;
        absent = ground (arith, member-count_down n (suc n));
        below = λ j l u. ground (arith, member-count_down n j);
      };
      gate = ground (arith, member-count_down n (suc n - 1));
    })

next-full : (n : ℕ) → next_statefulset_ordinal (count_down n) (count_down n) n ≡ none
next-full n = elim (Option-cases (next_statefulset_ordinal (count_down n) (count_down n) n)) [
  | inl e ↦ e
  | inr (k, e) ↦
      let v = (next_ordinal_sound (count_down n) (count_down n) n k e).lowest in
      ground (arith, member-count_down n k, v.absent, v.lower, v.upper)
]

ticks-growing : (t n : ℕ) → t ≤ n → ticks t n [] ≡ count_down t
unfolding ticks tick count_down
ticks-growing zero n h = refl
ticks-growing (suc t) n h =
    rw (ticks-growing t n (omega arith)) (ground (arith, next-count_down t n))

ticks-full : (extra n : ℕ) → ticks (extra + n) n [] ≡ count_down n
unfolding ticks tick
ticks-full zero n = let e : zero + n ≡ n = omega arith in rw e (ticks-growing n n (omega arith))
ticks-full (suc extra) n =
    let e : suc extra + n ≡ suc (extra + n) = omega arith in
    rw (e, ticks-full extra n) (ground (arith, next-full n))

-- Where every pod is ready by the next tick, the first n ticks create the pods 1 to n one at a time
-- in that order, and no later tick creates more.
pub ticks-count_down :
    (n t extra : ℕ)
    → t ≤ n
    → (ticks t n [] ≡ count_down t) × (ticks (extra + n) n [] ≡ count_down n)
ticks-count_down n t extra h = (ticks-growing t n h, ticks-full extra n)
