-- ===== src/Base64/RoundTrip.antt =====
-- The decoder reads back what the encoder wrote.
use royak.Prelude.{
  ltb, ◌==◌, if◌then◌else◌, ==_iff, Bool-cases, unwrap_or, ◌>>=◌, All, get_elem?, and_iff, Text, ℕ,
  zero, suc, ◌+◌, ◌-◌, ◌*◌, ◌/◌, ◌%◌, ◌^◌, ◌<◌, ◌≡◌, refl, ap, ◌∙◌, subst, inl, inr, Bool, true,
  false, not, ◌&&◌, ◌||◌, Option, none, some, List, [], ◌∷◌, arith,
}
use royak.Base64.{
  triple, b64_bytes, base64_bytes, base64_decode, alphabet, is_ascii_whitespace, sixbit, digit_of,
}

-- A character that the decoder reads as the digit `d`.
record IsDigitOf (c d : ℕ) : Type 0 where
  counted : (is_ascii_whitespace c || c == 61) ≡ false
  read : sixbit c ≡ some d

all_below : ℕ → (ℕ → Bool) → Bool
all_below zero p = true
all_below (suc n) p = p n && all_below n p

all_below-holds : (n : ℕ) (p : ℕ → Bool) → all_below n p ≡ true → (i : ℕ) → i < n → p i ≡ true
unfolding all_below
all_below-holds zero p h i l = absurd (omega (arith, l))
all_below-holds (suc n) p h i l = elim (Bool-cases (i == n)) [
  | inl y ↦ ground (arith, ==_iff i n)
  | inr m ↦ all_below-holds n p (ground arith) i (ground (arith, ==_iff i n))
]

reads_as : Option ℕ → ℕ → Bool
reads_as none d = false
reads_as (some e) d = e == d

reads_as-some : (o : Option ℕ) (d : ℕ) → reads_as o d ≡ true → o ≡ some d
unfolding reads_as
reads_as-some none d h = absurd (cc h)
reads_as-some (some e) d h = ap some ((==_iff e d).0 h)

is_digit_of : ℕ → Bool
is_digit_of d =
    let c = digit_of d in not (is_ascii_whitespace c || c == 61) && reads_as (sixbit c) d

all_digits : all_below 64 is_digit_of ≡ true
unfolding all_below is_digit_of reads_as digit_of sixbit
all_digits = refl

IsDigitOf-is_digit_of : (d : ℕ) → is_digit_of d ≡ true → IsDigitOf (digit_of d) d
unfolding is_digit_of
IsDigitOf-is_digit_of d h = record {
  counted = unskipped (digit_of d) (both.0);
  read = reads_as-some _ d (both.1);
}
  where
    both :
        (not (is_ascii_whitespace (digit_of d) || digit_of d == 61) ≡ true)
        × (reads_as (sixbit (digit_of d)) d ≡ true)
    both = (and_iff ((λ x. x), (λ x. x)) ((λ x. x), (λ x. x))).0 h

    unskipped :
        (c : ℕ)
        → not (is_ascii_whitespace c || c == 61) ≡ true
        → (is_ascii_whitespace c || c == 61) ≡ false
    unskipped c k = ground arith

digit_of-IsDigitOf : (n : ℕ) → IsDigitOf (digit_of n) (n % 64)
unfolding digit_of
digit_of-IsDigitOf n =
    subst (λ k. IsDigitOf (unwrap_or (get_elem? alphabet k) 0) (n % 64)) again
      (IsDigitOf-is_digit_of (n % 64)
        (all_below-holds 64 is_digit_of all_digits (n % 64) (omega arith)))
  where
    again : n % 64 % 64 ≡ n % 64
    again = omega arith

-- One digit in front of the text.
read-digit :
    (acc nbits c d : ℕ) (cs : Text)
    → IsDigitOf c d
    → base64_bytes acc nbits (c ∷ cs) ≡ (
        let wider = acc * 64 + d in
        let left = nbits + 6 - 8 in
        if ltb (nbits + 6) 8
        then base64_bytes (wider % 2 ^ (nbits + 6)) (nbits + 6) cs
        else (base64_bytes (wider % 2 ^ left) left cs >>= λ bs.
            some ((wider / 2 ^ left) % 256 ∷ bs)))
unfolding base64_bytes
read-digit acc nbits c d cs h = rw (h.counted, h.read) refl

-- A byte in front of what follows, if it can be read.
abbrev emit : ℕ → Option (List ℕ) → Option (List ℕ)
emit b o = o >>= λ bs. some (b ∷ bs)

-- With no bits held a digit gives none off; with six, four or two it gives off a byte.
module _ (c d : ℕ) (cs : Text) (h : IsDigitOf c d) (l : d < 64) where
  read-first : base64_bytes 0 0 (c ∷ cs) ≡ base64_bytes d 6 cs
  read-first = read-digit 0 0 c d cs h ∙ ap (λ x. base64_bytes x 6 cs) held
    where
      held : (0 * 64 + d) % 2 ^ 6 ≡ d
      held = omega arith

  read-second :
      (acc : ℕ)
      → acc < 64
      → base64_bytes acc 6 (c ∷ cs) ≡ emit (acc * 4 + d / 16) (base64_bytes (d % 16) 4 cs)
  read-second acc m = read-digit acc 6 c d cs h ∙ (λ i. emit (byte i) (base64_bytes (held i) 4 cs))
    where
      byte : (acc * 64 + d) / 2 ^ 4 % 256 ≡ acc * 4 + d / 16
      byte = omega arith

      held : (acc * 64 + d) % 2 ^ 4 ≡ d % 16
      held = omega arith

  read-third :
      (acc : ℕ)
      → acc < 16
      → base64_bytes acc 4 (c ∷ cs) ≡ emit (acc * 16 + d / 4) (base64_bytes (d % 4) 2 cs)
  read-third acc m = read-digit acc 4 c d cs h ∙ (λ i. emit (byte i) (base64_bytes (held i) 2 cs))
    where
      byte : (acc * 64 + d) / 2 ^ 2 % 256 ≡ acc * 16 + d / 4
      byte = omega arith

      held : (acc * 64 + d) % 2 ^ 2 ≡ d % 4
      held = omega arith

  read-fourth :
      (acc : ℕ) → acc < 4 → base64_bytes acc 2 (c ∷ cs) ≡ emit (acc * 64 + d) (base64_bytes 0 0 cs)
  read-fourth acc m = read-digit acc 2 c d cs h ∙ (λ i. emit (byte i) (base64_bytes (held i) 0 cs))
    where
      byte : (acc * 64 + d) / 2 ^ 0 % 256 ≡ acc * 64 + d
      byte = omega arith

      held : (acc * 64 + d) % 2 ^ 0 ≡ 0
      held = omega arith

module _ (b0 b1 b2 : ℕ) (l0 : b0 < 256) (l1 : b1 < 256) (l2 : b2 < 256) where
  digit : ℕ → ℕ
  digit k = triple b0 b1 b2 / k % 64

  first-byte : digit (2 ^ 18) * 4 + digit (2 ^ 12) / 16 ≡ b0
  unfolding digit
  first-byte = omega arith

  second-byte : digit (2 ^ 12) % 16 * 16 + digit (2 ^ 6) / 4 ≡ b1
  unfolding digit
  second-byte = omega arith

  third-byte : digit (2 ^ 6) % 4 * 64 + triple b0 b1 b2 % 64 ≡ b2
  unfolding digit
  third-byte = omega arith

  read-two :
      (cs : Text)
      → base64_bytes 0 0
          (digit_of (triple b0 b1 b2 / 2 ^ 18) ∷ digit_of (triple b0 b1 b2 / 2 ^ 12) ∷ cs)
        ≡ emit b0 (base64_bytes (digit (2 ^ 12) % 16) 4 cs)
  unfolding digit
  read-two cs =
      read-first _ (digit (2 ^ 18)) _ (digit_of-IsDigitOf _) (omega arith)
      ∙ read-second _ (digit (2 ^ 12)) cs (digit_of-IsDigitOf _) (omega arith) (digit (2 ^ 18))
          (omega arith)
      ∙ ap (λ b. emit b (base64_bytes (digit (2 ^ 12) % 16) 4 cs)) first-byte

  read-three :
      (cs : Text)
      → base64_bytes (digit (2 ^ 12) % 16) 4 (digit_of (triple b0 b1 b2 / 2 ^ 6) ∷ cs)
        ≡ emit b1 (base64_bytes (digit (2 ^ 6) % 4) 2 cs)
  unfolding digit
  read-three cs =
      read-third _ (digit (2 ^ 6)) cs (digit_of-IsDigitOf _) (omega arith) (digit (2 ^ 12) % 16)
        (omega arith)
      ∙ ap (λ b. emit b (base64_bytes (digit (2 ^ 6) % 4) 2 cs)) second-byte

  read-four :
      (cs : Text)
      → base64_bytes (digit (2 ^ 6) % 4) 2 (digit_of (triple b0 b1 b2) ∷ cs)
        ≡ emit b2 (base64_bytes 0 0 cs)
  unfolding digit
  read-four cs =
      read-fourth _ (triple b0 b1 b2 % 64) cs (digit_of-IsDigitOf _) (omega arith)
        (digit (2 ^ 6) % 4) (omega arith)
      ∙ ap (λ b. emit b (base64_bytes 0 0 cs)) third-byte

-- The loop of the decoder gives back the bytes that the encoder was given.
base64_bytes-b64_bytes :
    (bs : List ℕ) → All (λ b. b < 256) bs → base64_bytes 0 0 (b64_bytes bs) ≡ some bs
unfolding b64_bytes base64_bytes
base64_bytes-b64_bytes [] small = refl
base64_bytes-b64_bytes (b0 ∷ []) small =
    read-two b0 0 0 small.0 (omega arith) (omega arith) (61 ∷ 61 ∷ [])
base64_bytes-b64_bytes (b0 ∷ b1 ∷ []) small =
    read-two b0 b1 0 small.0 small.1.0 (omega arith) (digit_of (triple b0 b1 0 / 2 ^ 6) ∷ 61 ∷ [])
    ∙ ap (emit b0) (read-three b0 b1 0 small.0 small.1.0 (omega arith) (61 ∷ []))
base64_bytes-b64_bytes (b0 ∷ b1 ∷ b2 ∷ bs) small =
    read-two b0 b1 b2 small.0 small.1.0 small.1.1.0
      (digit_of (triple b0 b1 b2 / 2 ^ 6) ∷ digit_of (triple b0 b1 b2) ∷ b64_bytes bs)
    ∙ ap (emit b0) (
        read-three b0 b1 b2 small.0 small.1.0 small.1.1.0
          (digit_of (triple b0 b1 b2) ∷ b64_bytes bs)
        ∙ ap (emit b1) (
            read-four b0 b1 b2 small.0 small.1.0 small.1.1.0 (b64_bytes bs)
            ∙ ap (emit b2) (base64_bytes-b64_bytes bs small.1.1.1)))

-- The decoder of secrets, on what the encoder made of some bytes, gives their text if they are one and
-- nothing if they are not.
pub base64_decode-b64_bytes :
    (from_utf8 : List ℕ → Option Text) (bs : List ℕ)
    → All (λ b. b < 256) bs
    → base64_decode from_utf8 (b64_bytes bs) ≡ from_utf8 bs
unfolding base64_decode
base64_decode-b64_bytes from_utf8 bs small = rw (base64_bytes-b64_bytes bs small) refl
