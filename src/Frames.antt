-- ===== src/Frames.antt =====
-- src/mesh_crypto.rs, the frames of the encrypted mesh hop. The cipher (AES-256-GCM) is a parameter;
-- a seal that the cipher refuses panics, which is `none`.
pub mod Stream
mod Tests
use royak.Prelude.{
  ltb, if◌then◌else◌, length, take, drop, be_bytes, of_be, ℕ, ◌+◌, ◌-◌, ◌*◌, ◌%◌, ◌^◌, ◌||◌, Option,
  none, some, List, ◌++◌,
}

abbrev pub max_frame : ℕ
max_frame = 4 * 1024 * 1024

pub record Cipher : Type 0 where
  -- the key, the nonce and the bytes
  pub encrypt : List ℕ → List ℕ → List ℕ → Option (List ℕ)
  pub decrypt : List ℕ → List ℕ → List ℕ → Option (List ℕ)

pub data Opened : Type 0 where
  -- `Ok(None)`
  more : Opened
  bad_length : ℕ → Opened
  bad_frame : Opened
  opened : (plaintext : List ℕ) (consumed : ℕ) → Opened

module _ (c : Cipher) where
  unfoldable pub seal_frame : List ℕ → List ℕ → List ℕ → Option (List ℕ)
  seal_frame key plaintext nonce = elim (c.encrypt key nonce plaintext) [
    | none ↦ none
    | some ct ↦ some (be_bytes 4 ((12 + length ct) % 2 ^ 32) ++ (nonce ++ ct))
  ]

  unfoldable pub open_frame : List ℕ → List ℕ → Opened
  open_frame key buf =
      let payload_len = of_be (take 4 buf) in
      let total = 4 + payload_len in
      if ltb (length buf) 4
      then more
      else if ltb payload_len 12 || ltb max_frame payload_len
      then bad_length payload_len
      else if ltb (length buf) total
      then more
      else elim (c.decrypt key (take 12 (drop 4 buf)) (take (total - 16) (drop 16 buf))) [
        | none ↦ bad_frame
        | some plaintext ↦ opened plaintext total
      ]
