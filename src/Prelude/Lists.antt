-- ===== src/Prelude/Lists.antt =====
-- Lists measured and indexed by native numbers, with the iterator methods that the source calls.
use Prim.Native.Nat.{◌<◌, ℕ, zero, suc, ◌+◌, ◌-◌, ◌≤◌, min}
use mathlib.Core.Path.{◌≡◌, refl, ap}
use mathlib.Core.Logic.{inl, inr}
use mathlib.Core.Logic.{◌⊎◌, inl, inr, ◌↔◌}
use mathlib.Core.Bool.{Bool, true, false, ◌&&◌, ◌||◌}
use mathlib.Core.List.{List, [], ◌∷◌, ◌++◌}
use mathlib.Core.Option.{Option, none, some}
use native.Mathlib.Omega.{arith}
use royak.Prelude.Tests.{ltb, ◌==◌, if◌then◌else◌, Bool-cases}

-- A predicate that holds of every element computes to a tuple.
abbrev pub All {ℓ κ} : {A : Type ℓ} → (A → Type κ) → List A → Type κ
All P [] = Unit
All P (x ∷ xs) = P x × All P xs

-- The type with no value, at every level.
pub data Nothing {ℓ} : Type ℓ where

-- Some element satisfies a predicate.
abbrev pub Any {ℓ κ} : {A : Type ℓ} → (A → Type κ) → List A → Type κ
Any P [] = Nothing
Any P (x ∷ xs) = P x ⊎ Any P xs

module _ {ℓ} {A : Type ℓ} where
  abbrev pub length : List A → ℕ
  length [] = 0
  length (x ∷ xs) = suc (length xs)

  abbrev pub get_elem? : List A → ℕ → Option A
  get_elem? [] i = none
  get_elem? (x ∷ xs) zero = some x
  get_elem? (x ∷ xs) (suc i) = get_elem? xs i

  abbrev pub set : List A → ℕ → A → List A
  set [] i v = []
  set (x ∷ xs) zero v = v ∷ xs
  set (x ∷ xs) (suc i) v = x ∷ set xs i v

  abbrev pub take : ℕ → List A → List A
  take zero xs = []
  take (suc n) [] = []
  take (suc n) (x ∷ xs) = x ∷ take n xs

  abbrev pub drop : ℕ → List A → List A
  drop zero xs = xs
  drop (suc n) [] = []
  drop (suc n) (x ∷ xs) = drop n xs

  -- `iter().any`, `iter().all`, `iter().find`, `iter().filter`
  unfoldable pub any : (A → Bool) → List A → Bool
  any p [] = false
  any p (x ∷ xs) = p x || any p xs

  unfoldable pub all : (A → Bool) → List A → Bool
  all p [] = true
  all p (x ∷ xs) = p x && all p xs

  unfoldable pub find : (A → Bool) → List A → Option A
  find p [] = none
  find p (x ∷ xs) = if p x then some x else find p xs

  unfoldable pub filter : (A → Bool) → List A → List A
  filter p [] = []
  filter p (x ∷ xs) = let rest = filter p xs in if p x then x ∷ rest else rest

  pub length-append : (xs ys : List A) → length (xs ++ ys) ≡ length xs + length ys
  length-append [] ys = omega arith
  length-append (x ∷ xs) ys = omega (arith, length-append xs ys)

  pub length-take : (n : ℕ) (xs : List A) → length (take n xs) ≡ min n (length xs)
  length-take zero xs = omega arith
  length-take (suc n) [] = omega arith
  length-take (suc n) (x ∷ xs) = omega (arith, length-take n xs)

  pub length-drop : (n : ℕ) (xs : List A) → length (drop n xs) ≡ length xs - n
  length-drop zero xs = omega arith
  length-drop (suc n) [] = omega arith
  length-drop (suc n) (x ∷ xs) = omega (arith, length-drop n xs)

  pub take-append : (xs ys : List A) → take (length xs) (xs ++ ys) ≡ xs
  take-append [] ys = refl
  take-append (x ∷ xs) ys = ap (◌∷◌ x) (take-append xs ys)

  pub drop-append : (xs ys : List A) → drop (length xs) (xs ++ ys) ≡ ys
  drop-append [] ys = refl
  drop-append (x ∷ xs) ys = drop-append xs ys

  -- What `find` returns is an element that passes the test.
  pub find-some :
      (p : A → Bool) (xs : List A) {x : A} → find p xs ≡ some x → (p x ≡ true) × (any p xs ≡ true)
  unfolding find any
  find-some p [] h = ground arith
  find-some p (y ∷ ys) {x} h = elim (Bool-cases (p y)) [
    | inl e ↦ ground arith
    | inr e ↦ ground (arith, find-some p ys {x = x})
  ]

  pub find-none : (p : A → Bool) (xs : List A) → find p xs ≡ none → any p xs ≡ false
  unfolding find any
  find-none p [] h = refl
  find-none p (y ∷ ys) h = ground (arith, find-none p ys)

  -- What all elements satisfy, the found one does.
  pub All-find {κ} :
      (P : A → Type κ) (p : A → Bool) (xs : List A) {x : A} → All P xs → find p xs ≡ some x → P x
  unfolding find
  All-find P p [] a h = ground arith
  All-find P p (y ∷ ys) {x} a h = elim (Bool-cases (p y)) [
    | inl e ↦ ground arith
    | inr e ↦ All-find P p ys a.1 (ground arith)
  ]

  pub length-filter-le : (p : A → Bool) (xs : List A) → length (filter p xs) ≤ length xs
  unfolding filter
  length-filter-le p [] = omega arith
  length-filter-le p (x ∷ xs) = ground (arith, length-filter-le p xs)

  pub All-append {κ} : (P : A → Type κ) (xs ys : List A) → All P xs → All P ys → All P (xs ++ ys)
  All-append P [] ys h k = k
  All-append P (x ∷ xs) ys h k = (h.0, All-append P xs ys h.1 k)

pub or_iff {ℓ κ} :
    {P : Type ℓ} {Q : Type κ} {a b : Bool}
    → (a ≡ true) ↔ P
    → (b ≡ true) ↔ Q
    → (a || b ≡ true) ↔ (P ⊎ Q)
or_iff {a = true} h k = (λ e. inl (h.0 refl), λ e. refl)
or_iff {a = false} h k =
    (λ e. inr (k.0 e), λ e. elim e [ inl p ↦ absurd (cc (h.1 p)) | inr q ↦ k.1 q ])

pub and_iff {ℓ κ} :
    {P : Type ℓ} {Q : Type κ} {a b : Bool}
    → (a ≡ true) ↔ P
    → (b ≡ true) ↔ Q
    → (a && b ≡ true) ↔ (P × Q)
and_iff {a = true} h k = (λ e. (h.0 refl, k.0 e), λ e. k.1 e.1)
and_iff {a = false} h k = (λ e. absurd (cc e), λ e. absurd (cc (h.1 e.0)))

-- A Boolean search decides the predicate that its test decides.
pub any_iff {ℓ κ} :
    {A : Type ℓ} (P : A → Type κ) (p : A → Bool) (xs : List A)
    → ((x : A) → (p x ≡ true) ↔ P x)
    → (any p xs ≡ true) ↔ Any P xs
unfolding any
any_iff P p [] h = (λ e. absurd (cc e), λ n. elim n [ ])
any_iff P p (x ∷ xs) h = or_iff (h x) (any_iff P p xs h)

module _ {ℓ} {A : Type ℓ} where
  pub get_elem?-set :
      (xs : List A) (i j : ℕ) (v : A)
      → get_elem? (set xs i v) j
        ≡ (if i == j then if ltb i (length xs) then some v else none else get_elem? xs j)
  get_elem?-set [] i j v = ground arith
  get_elem?-set (x ∷ xs) zero zero v = ground arith
  get_elem?-set (x ∷ xs) zero (suc j) v = ground arith
  get_elem?-set (x ∷ xs) (suc i) zero v = ground arith
  get_elem?-set (x ∷ xs) (suc i) (suc j) v = ground (arith, get_elem?-set xs i j v)

  pub get_elem?-take :
      (n : ℕ) (xs : List A) (j : ℕ)
      → get_elem? (take n xs) j ≡ (if ltb j n then get_elem? xs j else none)
  get_elem?-take zero xs j = ground arith
  get_elem?-take (suc n) [] j = ground arith
  get_elem?-take (suc n) (x ∷ xs) zero = ground arith
  get_elem?-take (suc n) (x ∷ xs) (suc j) = ground (arith, get_elem?-take n xs j)

  -- A push at the end.
  pub get_elem?-push :
      (xs : List A) (x : A) (j : ℕ)
      → get_elem? (xs ++ x ∷ []) j ≡ (if j == length xs then some x else get_elem? xs j)
  get_elem?-push [] x zero = ground arith
  get_elem?-push [] x (suc j) = ground arith
  get_elem?-push (y ∷ ys) x zero = ground arith
  get_elem?-push (y ∷ ys) x (suc j) = ground (arith, get_elem?-push ys x j)

  pub get_elem?-beyond : (xs : List A) (j : ℕ) → length xs ≤ j → get_elem? xs j ≡ none
  get_elem?-beyond [] j h = refl
  get_elem?-beyond (x ∷ xs) zero h = absurd (omega arith)
  get_elem?-beyond (x ∷ xs) (suc j) h = get_elem?-beyond xs j (omega arith)

  pub get_elem?-within : (xs : List A) (j : ℕ) → j < length xs → (a : A) × (get_elem? xs j ≡ some a)
  get_elem?-within [] j h = absurd (omega arith)
  get_elem?-within (x ∷ xs) zero h = (x, refl)
  get_elem?-within (x ∷ xs) (suc j) h = get_elem?-within xs j (omega arith)

  pub length-set : (xs : List A) (i : ℕ) (v : A) → length (set xs i v) ≡ length xs
  length-set [] i v = refl
  length-set (x ∷ xs) zero v = refl
  length-set (x ∷ xs) (suc i) v = ap suc (length-set xs i v)

module _ {ℓ} {A : Type ℓ} where
  pub get_elem?-append_left :
      (xs ys : List A) (j : ℕ) (a : A) → get_elem? xs j ≡ some a → get_elem? (xs ++ ys) j ≡ some a
  get_elem?-append_left [] ys j a h = absurd (cc h)
  get_elem?-append_left (x ∷ xs) ys zero a h = h
  get_elem?-append_left (x ∷ xs) ys (suc j) a h = get_elem?-append_left xs ys j a h

  pub get_elem?-append_at : (xs ys : List A) (y : A) → get_elem? (xs ++ y ∷ ys) (length xs) ≡ some y
  get_elem?-append_at [] ys y = refl
  get_elem?-append_at (x ∷ xs) ys y = get_elem?-append_at xs ys y
