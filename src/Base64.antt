-- ===== src/Base64.antt =====
-- Base64, with no crate for it: the encoder of src/api.rs, and the decoder that src/reconcile.rs uses
-- for the `data` of a Secret. `String::from_utf8` is a parameter.
pub mod RoundTrip
mod Tests
use royak.Prelude.{
  ltb, leb, ◌==◌, if◌then◌else◌, unwrap_or, ◌>>=◌, get_elem?, Text, codes, ℕ, ◌+◌, ◌-◌, ◌*◌, ◌/◌,
  ◌%◌, ◌^◌, Bool, ◌&&◌, ◌||◌, Option, none, some, List, [], ◌∷◌,
}

abbrev pub is_ascii_whitespace : ℕ → Bool
is_ascii_whitespace c = c == 32 || c == 9 || c == 10 || c == 12 || c == 13

unfoldable pub sixbit : ℕ → Option ℕ
sixbit c =
    if leb 65 c && leb c 90
    then some (c - 65)
    else if leb 97 c && leb c 122
    then some (c - 97 + 26)
    else if leb 48 c && leb c 57
    then some (c - 48 + 52)
    else if c == 43
    then some 62
    else if c == 47
    then some 63
    else none

-- The loop of `base64_decode` on the bits held so far: at most one byte is given off for each
-- digit, since fewer than eight bits are held between digits.
unfoldable pub base64_bytes : ℕ → ℕ → Text → Option (List ℕ)
unfolding sixbit
base64_bytes acc nbits [] = some []
base64_bytes acc nbits (c ∷ cs) =
    let skipped = base64_bytes acc nbits cs in
    if is_ascii_whitespace c || c == 61 then skipped else elim (sixbit c) [
      | none ↦ none
      | some d ↦
          let wider = acc * 64 + d in
          let more = base64_bytes (wider % 2 ^ (nbits + 6)) (nbits + 6) cs in
          let left = nbits + 6 - 8 in
          let emitted = base64_bytes (wider % 2 ^ left) left cs in
          if ltb (nbits + 6) 8
          then more
          else (emitted >>= λ bs. some ((wider / 2 ^ left) % 256 ∷ bs))
    ]

module _ (from_utf8 : List ℕ → Option Text) where
  -- `None` on an invalid character, and on bytes that are no text.
  unfoldable pub base64_decode : Text → Option Text
  base64_decode s = base64_bytes 0 0 s >>= from_utf8

-- `const B64`
abbrev pub alphabet : Text
alphabet = codes "ABCDEFGHIJKLMNOPQRSTUVWXYZabcdefghijklmnopqrstuvwxyz0123456789+/"

-- `B64[(n & 0x3F) as usize]`
unfoldable pub digit_of : ℕ → ℕ
digit_of n = unwrap_or (get_elem? alphabet (n % 64)) 0

-- `(b0 << 16) | (b1 << 8) | b2`, of bytes.
abbrev pub triple : ℕ → ℕ → ℕ → ℕ
triple b0 b1 b2 = b0 * 2 ^ 16 + b1 * 2 ^ 8 + b2

-- The padding is `=`.
unfoldable pub b64_bytes : List ℕ → Text
unfolding digit_of
b64_bytes [] = []
b64_bytes (b0 ∷ []) =
    digit_of (triple b0 0 0 / 2 ^ 18) ∷ digit_of (triple b0 0 0 / 2 ^ 12) ∷ 61 ∷ 61 ∷ []
b64_bytes (b0 ∷ b1 ∷ []) =
    digit_of (triple b0 b1 0 / 2 ^ 18)
    ∷ digit_of (triple b0 b1 0 / 2 ^ 12)
    ∷ digit_of (triple b0 b1 0 / 2 ^ 6)
    ∷ 61
    ∷ []
b64_bytes (b0 ∷ b1 ∷ b2 ∷ bs) =
    digit_of (triple b0 b1 b2 / 2 ^ 18)
    ∷ digit_of (triple b0 b1 b2 / 2 ^ 12)
    ∷ digit_of (triple b0 b1 b2 / 2 ^ 6)
    ∷ digit_of (triple b0 b1 b2)
    ∷ b64_bytes bs
