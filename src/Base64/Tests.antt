-- ===== src/Base64/Tests.antt =====
-- The bytes of `hi`, and a byte that is no text.
use royak.Base64.{base64_decode, b64_bytes}
use royak.Base64.RoundTrip.{base64_decode-b64_bytes}
use royak.Prelude.{
  codes, Text, ℕ, ◌≡◌, refl, all, ltb, if◌then◌else◌, Option, none, some, List, [], ◌∷◌, arith,
}

abbrev hi : List ℕ
hi = 104 ∷ 105 ∷ []

b64_bytes-hi : b64_bytes hi ≡ codes "aGk="
unfolding b64_bytes
b64_bytes-hi = refl

-- Of the texts, the ASCII ones only.
abbrev ascii : List ℕ → Option Text
ascii bs = if all (λ b. ltb b 128) bs then some bs else none

base64_decode-b64_bytes_example : base64_decode ascii (b64_bytes hi) ≡ some hi
unfolding all
base64_decode-b64_bytes_example = base64_decode-b64_bytes ascii hi (omega arith, (omega arith, tt))

no_text : base64_decode ascii (b64_bytes (255 ∷ [])) ≡ none
unfolding all
no_text = base64_decode-b64_bytes ascii (255 ∷ []) (omega arith, tt)
