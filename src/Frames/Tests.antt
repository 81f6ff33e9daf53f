-- ===== src/Frames/Tests.antt =====
-- Frames under a cipher that adds a tag byte and checks it.
use royak.Prelude.{
  ◌==◌, if◌then◌else◌, set, take, be_bytes, of_be_from, of_be, codes, ℕ, ◌≡◌, refl, none, some,
  List, [], ◌∷◌, ◌++◌, arith,
}
use royak.Frames.{Cipher, Opened, seal_frame, open_frame}
use royak.Frames.Stream.{open_frame-seal_frame}

abbrev tagged : Cipher
tagged = record {
  encrypt = λ key nonce plaintext. some (7 ∷ plaintext);
  decrypt = λ key nonce ct. elim ct [
    | [] ↦ none
    | tag ∷ plaintext ↦ if tag == 7 then some plaintext else none
  ];
}

abbrev nonce : List ℕ
nonce = 1 ∷ 2 ∷ 3 ∷ 4 ∷ 5 ∷ 6 ∷ 7 ∷ 8 ∷ 9 ∷ 10 ∷ 11 ∷ 12 ∷ []

abbrev sealed : List ℕ
sealed = 0 ∷ 0 ∷ 0 ∷ 15 ∷ (nonce ++ 7 ∷ 104 ∷ 105 ∷ [])

sealing : seal_frame tagged [] (codes "hi") nonce ≡ some sealed
unfolding seal_frame be_bytes
sealing = refl

needs_more : open_frame tagged [] (take 18 sealed) ≡ Opened.more
unfolding open_frame of_be of_be_from
needs_more = refl

tampered : open_frame tagged [] (set sealed 16 8) ≡ Opened.bad_frame
unfolding open_frame of_be of_be_from
tampered = refl

open_frame-seal_frame_example :
    open_frame tagged [] (sealed ++ sealed) ≡ Opened.opened (codes "hi") 19
open_frame-seal_frame_example =
    open_frame-seal_frame tagged [] nonce (codes "hi") (7 ∷ codes "hi") sealed refl refl refl
      (omega arith) sealed sealing
