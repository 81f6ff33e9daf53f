-- ===== src/Ingress/RoundRobin.antt =====
-- The round robin over the backends of a route.
use royak.Prelude.{
  ltb, ltb→lt, not_ltb→le, Bool-cases, Any, length, get_elem?, filter, Text, is_empty, ℕ, zero, suc,
  ◌+◌, ◌-◌, ◌%◌, ◌^◌, ◌≤◌, ◌<◌, ◌≡◌, refl, sym, ap, ◌∙◌, subst, inl, inr, true, false, Option, none,
  some, List, [], ◌∷◌, arith,
}
use native.Mathlib.Nat.{mod-lt, mod-eq_of_lt, mod-add-mod, add-mod_right}
use royak.Ingress.{Backend, ResolvedRoute, serves, last_longest, take_turn, snapshot_backend}

-- The backends of `k` requests, one after the other, from a value of the counter on.
unfoldable pub turns : ℕ → List ResolvedRoute → ℕ → Text → Text → List (Option Backend)
unfolding snapshot_backend
turns zero routes counter host path = []
turns (suc k) routes counter host path =
    let turn = snapshot_backend routes counter host path in turn.1 ∷ turns k routes turn.0 host path

-- The route that the table has for the request.
unfoldable pub table_route : List ResolvedRoute → Text → Text → Option ResolvedRoute
table_route routes host path = last_longest none (filter (serves host path) routes)

is_empty-false {ℓ} : {A : Type ℓ} (xs : List A) → 0 < length xs → is_empty xs ≡ false
unfolding is_empty
is_empty-false [] l = absurd (omega (arith, l))
is_empty-false (x ∷ xs) l = refl

-- After some further requests, fewer than there are backends, it is the turn of `i`.
record Comes (n i m : ℕ) : Type 0 where
  steps : ℕ
  soon : steps < m
  there : (n + steps) % m ≡ i

comes : (n i m : ℕ) → i < m → Comes n i m
comes n i m l = elim (Bool-cases (ltb i (n % m))) [
  | inl y ↦ record {
    steps = m - n % m + i;
    soon = omega (arith, l, ltb→lt i (n % m) y, mod-lt n (positive l));
    there =
        sym (mod-add-mod n m (m - n % m + i))
        ∙ ap (λ x. x % m) (wrapped y)
        ∙ add-mod_right i m
        ∙ mod-eq_of_lt l;
  }
  | inr e ↦ record {
    steps = i - n % m;
    soon = omega (arith, l);
    there = sym (mod-add-mod n m (i - n % m)) ∙ ap (λ x. x % m) (ahead e) ∙ mod-eq_of_lt l;
  }
]
  where
    positive : i < m → 0 < m
    positive h = omega (arith, h)

    wrapped : ltb i (n % m) ≡ true → n % m + (m - n % m + i) ≡ i + m
    wrapped y = omega (arith, ltb→lt i (n % m) y, mod-lt n (positive l))

    ahead : ltb i (n % m) ≡ false → n % m + (i - n % m) ≡ i
    ahead e = omega (arith, not_ltb→le i (n % m) e)

module _ (routes : List ResolvedRoute) (host path : Text) (route : ResolvedRoute)
    (found : table_route routes host path ≡ some route) (nonempty : 0 < length route.backends) where
  snapshot_backend-turn :
      (n : ℕ)
      → snapshot_backend routes n host path
        ≡ ((n + 1) % 2 ^ 64, get_elem? route.backends (n % length route.backends))
  unfolding snapshot_backend table_route take_turn
  snapshot_backend-turn n = rw (found, is_empty-false route.backends nonempty) refl

  turns-Any :
      (k j n : ℕ)
      → j < k
      → n + k ≤ 2 ^ 64
      → Any
          (λ o. o ≡ get_elem? route.backends ((n + j) % length route.backends))
          (turns k routes n host path)
  unfolding turns
  turns-Any zero j n l b = absurd (omega (arith, l))
  turns-Any (suc k) zero n l b = inl (
      ap (λ x. x.1) (snapshot_backend-turn n)
      ∙ ap (λ x. get_elem? route.backends (x % length route.backends)) here)
    where
      here : n ≡ n + 0
      here = omega arith
  turns-Any (suc k) (suc j) n l b = inr (
      subst
        (λ c.
          Any (λ o. o ≡ get_elem? route.backends ((n + suc j) % length route.backends))
            (turns k routes c host path))
        (sym (next (omega (arith, l, b))))
        (subst
          (λ x.
            Any (λ o. o ≡ get_elem? route.backends (x % length route.backends))
              (turns k routes (n + 1) host path))
          after (turns-Any k j (n + 1) (omega (arith, l)) (omega (arith, b)))))
    where
      next : n + 1 < 2 ^ 64 → (snapshot_backend routes n host path).0 ≡ n + 1
      next h = ap (λ x. x.0) (snapshot_backend-turn n) ∙ mod-eq_of_lt h

      after : n + 1 + j ≡ n + suc j
      after = omega arith

-- A route with backends serves each of them within as many requests in a row as it has backends,
-- while the counter does not wrap around.
pub snapshot_backend-turns :
    (routes : List ResolvedRoute) (host path : Text) (route : ResolvedRoute) (i n : ℕ)
    → table_route routes host path ≡ some route
    → i < length route.backends
    → n + length route.backends ≤ 2 ^ 64
    → Any (λ o. o ≡ get_elem? route.backends i) (turns (length route.backends) routes n host path)
snapshot_backend-turns routes host path route i n found l bound =
    let c = comes n i (length route.backends) l in
    subst
      (λ x.
        Any (λ o. o ≡ get_elem? route.backends x)
          (turns (length route.backends) routes n host path))
      c.there
      (turns-Any routes host path route found (omega (arith, l)) (length route.backends) c.steps n
        c.soon bound)
