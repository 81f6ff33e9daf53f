-- ===== src/Frames/Stream.antt =====
-- Frames are read back one by one from a stream.
use royak.Prelude.{
  length, take, drop, length-append, take-append, drop-append, be_bytes, of_be, length-be_bytes,
  of_be-be_bytes, ℕ, ◌+◌, ◌-◌, ◌%◌, ◌^◌, ◌≤◌, ◌≡◌, sym, ap, ◌∙◌, subst, some, List, ◌++◌,
  append_assoc, arith,
}
use royak.Frames.{max_frame, Cipher, Opened, seal_frame, open_frame}

take-exact : (n : ℕ) (xs ys : List ℕ) → length xs ≡ n → take n (xs ++ ys) ≡ xs
take-exact n xs ys h = subst (λ m. take m (xs ++ ys) ≡ xs) h (take-append xs ys)

drop-exact : (n : ℕ) (xs ys : List ℕ) → length xs ≡ n → drop n (xs ++ ys) ≡ ys
drop-exact n xs ys h = subst (λ m. drop m (xs ++ ys) ≡ ys) h (drop-append xs ys)

module _ (c : Cipher) (key : List ℕ) where
  open_frame-whole :
      (len nonce ct rest plaintext : List ℕ) (total : ℕ)
      → length len ≡ 4
      → length nonce ≡ 12
      → of_be len ≡ 12 + length ct
      → 12 + length ct ≤ max_frame
      → c.decrypt key nonce ct ≡ some plaintext
      → total ≡ 4 + (12 + length ct)
      → open_frame c key (len ++ (nonce ++ (ct ++ rest))) ≡ Opened.opened plaintext total
  unfolding open_frame
  open_frame-whole len nonce ct rest plaintext total h n e bound d t =
      let buf : List ℕ = len ++ (nonce ++ (ct ++ rest)) in
      let head : take 4 buf ≡ len = take-exact 4 len (nonce ++ (ct ++ rest)) h in
      let tail : drop 4 buf ≡ nonce ++ (ct ++ rest) = drop-exact 4 len (nonce ++ (ct ++ rest)) h in
      let read_nonce : take 12 (drop 4 buf) ≡ nonce =
        rw tail (take-exact 12 nonce (ct ++ rest) n) in
      let size : length buf ≡ 4 + (12 + (length ct + length rest)) = omega (
        arith,
        length-append len (nonce ++ (ct ++ rest)),
        length-append nonce (ct ++ rest),
        length-append ct rest,
      ) in
      let read_ct : take (4 + (12 + length ct) - 16) (drop 16 buf) ≡ ct =
        rw
          (ap (drop 16) (sym (append_assoc len nonce (ct ++ rest)))
            ∙ drop-exact 16 (len ++ nonce) (ct ++ rest) (omega (arith, length-append len nonce)))
          (take-exact (4 + (12 + length ct) - 16) ct rest (omega arith)) in
      let length_field : of_be (take 4 buf) ≡ 12 + length ct = rw head e in
      rw (length_field, open_frame) (ground (arith, size, read_nonce, read_ct, bound, d, t))

  -- A frame is read back from the front of a stream, whatever follows it: for a cipher that decrypts
  -- what it encrypted, a nonce of 12 bytes, and a payload of at most 4 MiB with its nonce.
  pub open_frame-seal_frame :
      (nonce plaintext ct rest : List ℕ)
      → length nonce ≡ 12
      → c.encrypt key nonce plaintext ≡ some ct
      → c.decrypt key nonce ct ≡ some plaintext
      → 12 + length ct ≤ max_frame
      → (frame : List ℕ) → seal_frame c key plaintext nonce ≡ some frame
      → open_frame c key (frame ++ rest) ≡ Opened.opened plaintext (length frame)
  unfolding seal_frame
  open_frame-seal_frame nonce plaintext ct rest n e d bound frame s =
      let len : List ℕ = be_bytes 4 ((12 + length ct) % 2 ^ 32) in
      let built : len ++ (nonce ++ ct) ≡ frame = ground (arith, e, s) in
      let small : (12 + length ct) % 2 ^ 32 ≡ 12 + length ct = omega (arith, bound) in
      let size : length frame ≡ 4 + (12 + length ct) = rw (sym built) (
        omega (
          arith,
          length-append len (nonce ++ ct),
          length-append nonce ct,
          length-be_bytes 4 ((12 + length ct) % 2 ^ 32),
        )) in
      let path : frame ++ rest ≡ len ++ (nonce ++ (ct ++ rest)) =
        rw (sym built) (simp append_assoc) in
      rw path (
        open_frame-whole len nonce ct rest plaintext (length frame)
          (length-be_bytes 4 ((12 + length ct) % 2 ^ 32)) n
          (of_be-be_bytes 4 ((12 + length ct) % 2 ^ 32) (omega arith) ∙ small) bound d size)
