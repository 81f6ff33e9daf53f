-- ===== src/Prelude/Words.antt =====
-- Unsigned integers as bytes, `to_le_bytes` and `to_be_bytes` with their inverses, at any width.
use Prim.Native.Nat.{ℕ, zero, suc, ◌+◌, ◌*◌, ◌/◌, ◌%◌, ◌^◌, ◌<◌}
use mathlib.Core.Path.{◌≡◌, refl, ap}
use mathlib.Core.List.{List, [], ◌∷◌, ◌++◌}
use native.Mathlib.Omega.{arith}
use native.Mathlib.Nat.{pow-suc}
use royak.Prelude.Lists.{length, length-append}

-- The low `k` bytes of a number, least significant first.
unfoldable pub le_bytes : ℕ → ℕ → List ℕ
le_bytes zero n = []
le_bytes (suc k) n = (n % 256) ∷ le_bytes k (n / 256)

unfoldable pub of_le : List ℕ → ℕ
of_le [] = 0
of_le (b ∷ bs) = b + 256 * of_le bs

unfoldable pub be_bytes : ℕ → ℕ → List ℕ
be_bytes zero n = []
be_bytes (suc k) n = be_bytes k (n / 256) ++ (n % 256) ∷ []

unfoldable pub of_be_from : ℕ → List ℕ → ℕ
of_be_from acc [] = acc
of_be_from acc (b ∷ bs) = of_be_from (acc * 256 + b) bs

unfoldable pub of_be : List ℕ → ℕ
of_be bs = of_be_from 0 bs

pub length-le_bytes : (k n : ℕ) → length (le_bytes k n) ≡ k
unfolding le_bytes
length-le_bytes zero n = refl
length-le_bytes (suc k) n = ap suc (length-le_bytes k (n / 256))

pub length-be_bytes : (k n : ℕ) → length (be_bytes k n) ≡ k
unfolding be_bytes
length-be_bytes zero n = refl
length-be_bytes (suc k) n =
    omega
      (arith, length-append (be_bytes k (n / 256)) ((n % 256) ∷ []), length-be_bytes k (n / 256))

div_below : (k n : ℕ) → n < 256 ^ suc k → n / 256 < 256 ^ k
div_below k n h = let e : 256 ^ suc k ≡ 256 ^ k * 256 = pow-suc 256 k in omega arith

pub of_le-le_bytes : (k n : ℕ) → n < 256 ^ k → of_le (le_bytes k n) ≡ n
unfolding of_le le_bytes
of_le-le_bytes zero n h = omega arith
of_le-le_bytes (suc k) n h = omega (arith, of_le-le_bytes k (n / 256) (div_below k n h))

of_be_from-append :
    (acc : ℕ) (bs cs : List ℕ) → of_be_from acc (bs ++ cs) ≡ of_be_from (of_be_from acc bs) cs
unfolding of_be_from
of_be_from-append acc [] cs = refl
of_be_from-append acc (b ∷ bs) cs = of_be_from-append (acc * 256 + b) bs cs

pub of_be-be_bytes : (k n : ℕ) → n < 256 ^ k → of_be (be_bytes k n) ≡ n
unfolding of_be be_bytes of_be_from
of_be-be_bytes zero n h = omega arith
of_be-be_bytes (suc k) n h =
    rw (of_be_from-append 0 (be_bytes k (n / 256)) ((n % 256) ∷ []))
      (omega (arith, of_be-be_bytes k (n / 256) (div_below k n h)))
