-- ===== src/Prelude/Decimal.antt =====
-- Unsigned integers in decimal: `to_string`, and `str::parse` into an unsigned type.
use Prim.Native.Nat.{ℕ, zero, suc, ◌+◌, ◌-◌, ◌*◌, ◌/◌, ◌%◌, ◌≤◌, ◌<◌}
use mathlib.Core.Path.{◌≡◌, refl}
use mathlib.Core.Logic.{inl, inr}
use mathlib.Core.Bool.{false, ◌&&◌}
use mathlib.Core.Option.{Option, none, some}
use mathlib.Core.List.{[], ◌∷◌}
use native.Mathlib.Omega.{arith}
use royak.Prelude.Tests.{ltb, leb, ◌==◌, if◌then◌else◌, Bool-cases, not_ltb→le}
use royak.Prelude.Lists.{All}
use Prim.{tt}
use royak.Prelude.Bytes.{Text, is_empty}

decimal_from : ℕ → ℕ → Text → Text
decimal_from zero n tail = tail
decimal_from (suc fuel) n tail =
    let digits = (48 + n % 10) ∷ tail in
    let rest = decimal_from fuel (n / 10) digits in if ltb n 10 then digits else rest

-- A number has fewer digits than its successor counts.
unfoldable pub decimal : ℕ → Text
unfolding decimal_from
decimal n = decimal_from (suc n) n []

-- The rest of a number below the bound, after the value of its first digits.
unfoldable pub parse_digits : ℕ → ℕ → Text → Option ℕ
parse_digits bound value [] = some value
parse_digits bound value (c ∷ cs) =
    let next = value * 10 + (c - 48) in
    let rest = parse_digits bound next cs in
    if leb 48 c && leb c 57 && ltb next bound then rest else none

-- A leading `+` is accepted.
unfoldable pub strip_plus : Text → Text
strip_plus [] = []
strip_plus (c ∷ cs) = if c == 43 then cs else c ∷ cs

-- `s.parse::<uN>()` with the bound 2 ^ N.
unfoldable pub parse_unsigned : ℕ → Text → Option ℕ
unfolding strip_plus parse_digits
parse_unsigned bound s =
    let digits = strip_plus s in if is_empty digits then none else parse_digits bound 0 digits

parse_digits-decimal_from :
    (bound fuel n : ℕ) (tail : Text)
    → n < fuel
    → n < bound
    → parse_digits bound 0 (decimal_from fuel n tail) ≡ parse_digits bound n tail
unfolding parse_digits decimal_from
parse_digits-decimal_from bound zero n tail h k = absurd (omega arith)
parse_digits-decimal_from bound (suc fuel) n tail h k = elim (Bool-cases (ltb n 10)) [
  | inl e ↦ ground arith
  | inr e ↦
      let big : 10 ≤ n = not_ltb→le n 10 e in
      ground (
        arith,
        parse_digits-decimal_from bound fuel (n / 10) ((48 + n % 10) ∷ tail) (omega arith)
            (omega arith),
      )
]

strip_plus-decimal_from :
    (fuel n : ℕ) (tail : Text)
    → strip_plus tail ≡ tail
    → strip_plus (decimal_from fuel n tail) ≡ decimal_from fuel n tail
unfolding strip_plus decimal_from
strip_plus-decimal_from zero n tail h = h
strip_plus-decimal_from (suc fuel) n tail h =
    ground (arith, strip_plus-decimal_from fuel (n / 10) ((48 + n % 10) ∷ tail))

decimal_from-nonempty :
    (fuel n : ℕ) (c : ℕ) (tail : Text) → is_empty (decimal_from fuel n (c ∷ tail)) ≡ false
unfolding decimal_from is_empty
decimal_from-nonempty zero n c tail = refl
decimal_from-nonempty (suc fuel) n c tail =
    ground (arith, decimal_from-nonempty fuel (n / 10) (48 + n % 10) (c ∷ tail))

pub decimal-nonempty : (n : ℕ) → is_empty (decimal n) ≡ false
unfolding decimal decimal_from is_empty
decimal-nonempty n = ground (arith, decimal_from-nonempty n (n / 10) (48 + n % 10) [])

pub parse_unsigned-decimal : (bound n : ℕ) → n < bound → parse_unsigned bound (decimal n) ≡ some n
unfolding parse_unsigned decimal strip_plus parse_digits
parse_unsigned-decimal bound n h = ground (
  arith,
  decimal-nonempty n,
  strip_plus-decimal_from (suc n) n [] refl,
  parse_digits-decimal_from bound (suc n) n [] (omega arith) h,
)

unfoldable pub IsDigit : ℕ → Type 0
IsDigit c = (48 ≤ c) × (c ≤ 57)

decimal_from-IsDigit :
    (fuel n : ℕ) (tail : Text) → All IsDigit tail → All IsDigit (decimal_from fuel n tail)
unfolding decimal_from IsDigit
decimal_from-IsDigit zero n tail a = a
decimal_from-IsDigit (suc fuel) n tail a =
    let digits : All IsDigit ((48 + n % 10) ∷ tail) = ((omega arith, omega arith), a) in
    elim (Bool-cases (ltb n 10)) [
      | inl e ↦ rw e digits
      | inr e ↦ rw e (decimal_from-IsDigit fuel (n / 10) ((48 + n % 10) ∷ tail) digits)
    ]

pub decimal-IsDigit : (n : ℕ) → All IsDigit (decimal n)
unfolding decimal
decimal-IsDigit n = decimal_from-IsDigit (suc n) n [] tt
