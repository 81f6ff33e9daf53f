-- ===== src/Flows/Laws.antt =====
-- The buffer keeps the newest flows.
use royak.Prelude.{
  leb, leb→le, Bool-cases, length, take, drop, length-append, length-drop, ℕ, zero, suc, ◌-◌, ◌≤◌,
  ◌<◌, ◌≡◌, refl, sym, ap, ◌∙◌, inl, inr, true, false, List, [], ◌∷◌, ◌++◌, append-nil,
  append_assoc, arith,
}
use royak.Flows.{max_flows, FlowRecord, record_flow, rev, snapshot}

unfoldable pub record_all : List FlowRecord → List FlowRecord → List FlowRecord
record_all q [] = q
record_all q (f ∷ fs) = record_all (record_flow q f) fs

-- A buffer that holds the newest flows of a history.
abbrev newest : List FlowRecord → List FlowRecord
newest history = drop (length history - max_flows) history

drop-push :
    {A : Type 0} (n : ℕ) (xs : List A) (x : A)
    → n ≤ length xs
    → drop n (xs ++ x ∷ []) ≡ drop n xs ++ x ∷ []
drop-push zero xs x h = refl
drop-push (suc n) [] x h = absurd (omega arith)
drop-push (suc n) (y ∷ ys) x h = drop-push n ys x (omega arith)

drop-drop : {A : Type 0} (n : ℕ) (xs : List A) → drop 1 (drop n xs) ≡ drop (suc n) xs
drop-drop zero [] = refl
drop-drop zero (x ∷ xs) = refl
drop-drop (suc n) [] = refl
drop-drop (suc n) (x ∷ xs) = drop-drop n xs

record_flow-newest :
    (history : List FlowRecord) (f : FlowRecord)
    → record_flow (newest history) f ≡ newest (history ++ f ∷ [])
unfolding record_flow
record_flow-newest history f = elim (Bool-cases (leb max_flows (length (newest history)))) [
  | inl e ↦ rw e (full (le_full e))
  | inr e ↦ rw e (fits (not_full e))
]
  where
    le_full : leb max_flows (length (newest history)) ≡ true → max_flows ≤ length history
    le_full e = omega (
      arith,
      leb→le max_flows (length (newest history)) e,
      length-drop (length history - max_flows) history,
    )

    not_full : leb max_flows (length (newest history)) ≡ false → length history < max_flows
    not_full e = ground (arith, length-drop (length history - max_flows) history)

    full :
        max_flows ≤ length history → drop 1 (newest history) ++ f ∷ [] ≡ newest (history ++ f ∷ [])
    full l =
        let next : length (history ++ f ∷ []) - max_flows ≡ suc (length history - max_flows) =
          omega (arith, length-append history (f ∷ [])) in
        rw (next, drop-drop (length history - max_flows) history)
          (sym (drop-push (suc (length history - max_flows)) history f (omega arith)))

    fits : length history < max_flows → newest history ++ f ∷ [] ≡ newest (history ++ f ∷ [])
    fits l =
        let before : length history - max_flows ≡ 0 = omega arith in
        let after : length (history ++ f ∷ []) - max_flows ≡ 0 =
          omega (arith, length-append history (f ∷ [])) in
        rw (before, after) refl

record_all-newest :
    (history fs : List FlowRecord) → record_all (newest history) fs ≡ newest (history ++ fs)
unfolding record_all
record_all-newest history [] = ap newest (sym (append-nil history))
record_all-newest history (f ∷ fs) =
    ap (λ q. record_all q fs) (record_flow-newest history f)
    ∙ record_all-newest (history ++ f ∷ []) fs
    ∙ ap newest (append_assoc history (f ∷ []) fs)

-- After any flows are recorded into the empty buffer, it holds the last 2000 of them in order, and
-- never more.
pub record_all-keeps :
    (fs : List FlowRecord)
    → (record_all [] fs ≡ drop (length fs - max_flows) fs) × (length (record_all [] fs) ≤ max_flows)
record_all-keeps fs =
    let e = record_all-newest [] fs in
    (e, rw e (omega (arith, length-drop (length fs - max_flows) fs)))

rev-push : {A : Type 0} (xs : List A) (x : A) → rev (xs ++ x ∷ []) ≡ x ∷ rev xs
unfolding rev
rev-push [] x = refl
rev-push (y ∷ ys) x = ap (λ r. r ++ y ∷ []) (rev-push ys x)

length-rev : {A : Type 0} (xs : List A) → length (rev xs) ≡ length xs
unfolding rev
length-rev [] = refl
length-rev (x ∷ xs) = omega (arith, length-append (rev xs) (x ∷ []), length-rev xs)

take-append_short :
    {A : Type 0} (n : ℕ) (xs ys : List A) → n ≤ length xs → take n (xs ++ ys) ≡ take n xs
take-append_short zero xs ys h = refl
take-append_short (suc n) [] ys h = absurd (omega arith)
take-append_short (suc n) (x ∷ xs) ys h = ap (◌∷◌ x) (take-append_short n xs ys (omega arith))

take-rev-drop :
    {A : Type 0} (n : ℕ) (xs : List A) → n < length xs → take n (rev (drop 1 xs)) ≡ take n (rev xs)
unfolding rev
take-rev-drop n [] h = refl
take-rev-drop n (x ∷ xs) h =
    sym (take-append_short n (rev xs) (x ∷ []) (omega (arith, length-rev xs)))

-- A snapshot of at most 2000 flows begins with the flow that was recorded last and goes on with the
-- snapshot from before it, whether or not the buffer was full.
pub snapshot-record_flow :
    (q : List FlowRecord) (f : FlowRecord) (n : ℕ)
    → n < max_flows
    → snapshot (record_flow q f) (suc n) ≡ f ∷ snapshot q n
unfolding snapshot record_flow
snapshot-record_flow q f n h = elim (Bool-cases (leb max_flows (length q))) [
  | inl e ↦ rw e (
      ap (take (suc n)) (rev-push (drop 1 q) f)
      ∙ ap (◌∷◌ f) (take-rev-drop n q (omega (arith, leb→le max_flows (length q) e))))
  | inr e ↦ rw e (ap (take (suc n)) (rev-push q f))
]
