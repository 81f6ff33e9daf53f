-- ===== src/StatefulSet/Tests.antt =====
-- Runs of `next_statefulset_ordinal`, and its theorems at those sets.
use royak.Prelude.{◌+◌, ◌≡◌, refl, ◌↔◌, none, some, [], ◌∷◌, arith, any}
use royak.StatefulSet.{next_statefulset_ordinal, member}
use royak.StatefulSet.Laws.{
  IsEligible, next_statefulset_ordinal_iff, ticks, count_down, ticks-count_down,
}

refills_hole : next_statefulset_ordinal (1 ∷ 3 ∷ []) (1 ∷ 3 ∷ []) 3 ≡ some 2
unfolding next_statefulset_ordinal member any
refills_hole = refl

holds_until_ready : next_statefulset_ordinal (1 ∷ []) [] 3 ≡ none
unfolding next_statefulset_ordinal member any
holds_until_ready = refl

next_statefulset_ordinal_iff_example :
    (next_statefulset_ordinal (1 ∷ 3 ∷ []) (1 ∷ []) 3 ≡ some 2)
    ↔ IsEligible (1 ∷ 3 ∷ []) (1 ∷ []) 3 2
next_statefulset_ordinal_iff_example = next_statefulset_ordinal_iff (1 ∷ 3 ∷ []) (1 ∷ []) 3 2

ticks-count_down_example : (ticks 2 3 [] ≡ count_down 2) × (ticks (4 + 3) 3 [] ≡ count_down 3)
ticks-count_down_example = ticks-count_down 3 2 4 (omega arith)
