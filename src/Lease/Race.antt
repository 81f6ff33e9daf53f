-- ===== src/Lease/Race.antt =====
-- Instances that read and write at the same time. `try_acquire_lease` reads the file and then
-- writes it, with no lock between the two, so its two halves are steps of their own here.
use royak.Prelude.{arith, ◌≡◌, List, [], ◌∷◌}
use royak.Lease.{
  false, true, some, Bool, none, Option, ℕ, Text, Serde, FileIo, LeaseFile, may_claim,
  write_lease_atomic,
}

pub record Instance : Type 0 where
  pub our_id : Text
  -- what the read has decided
  pub verdict : Option Bool
  -- what the call has returned
  pub leads : Option Bool

pub record Shared : Type 0 where
  pub file : LeaseFile
  pub first : Instance
  pub second : Instance

module _ (serde : Serde) (io : FileIo) (now : ℕ) where
  -- The next half of a call: the read, then the write or the refusal.
  unfoldable pub advance : LeaseFile → Instance → LeaseFile × Instance
  advance file i = elim i.verdict [
    | none ↦ (file, record i { verdict = some (may_claim serde file i.our_id now) })
    | some false ↦ (file, record i { leads = some false })
    | some true ↦
        let (won, file') = write_lease_atomic serde io file i.our_id now in
        (file', record i { leads = some won })
  ]

  -- `false` lets the first instance go on, `true` the second.
  unfoldable pub interleave : List Bool → Shared → Shared
  unfolding advance
  interleave [] s = s
  interleave (false ∷ more) s =
      let (file, i) = advance s.file s.first in
      interleave more (record s { file = file; first = i })
  interleave (true ∷ more) s =
      let (file, i) = advance s.file s.second in
      interleave more (record s { file = file; second = i })

  abbrev pub calling : Text → Instance
  calling id = record { our_id = id; verdict = none; leads = none }

  -- Whenever the lease is free for both of two instances, the schedule read, read, write, write makes
  -- both calls return true, and the file names the second one only.
  pub interleave-two_leaders :
      (file : LeaseFile) (a b : Text)
      → io.write_ok ≡ true
      → io.rename_ok ≡ true
      → may_claim serde file a now ≡ true
      → may_claim serde file b now ≡ true
      → let s =
          interleave
            (false ∷ true ∷ false ∷ true ∷ [])
            (record { file = file; first = calling a; second = calling b }) in
        (s.first.leads ≡ some true)
        × (s.second.leads ≡ some true)
        × (s.file ≡ (write_lease_atomic serde io file b now).1)
  unfolding interleave write_lease_atomic
  interleave-two_leaders file a b w r fa fb = ground arith
