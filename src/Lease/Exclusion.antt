-- ===== src/Lease/Exclusion.antt =====
-- Instances that take their turns: one leader at a time, renewal, failover and release.
use royak.Prelude.{
  ◌⊎◌, ◌↔◌, sym, ◌&&◌, ◌-◌, ◌||◌, ℕ, ◌+◌, ◌≤◌, ◌<◌, ◌≡◌, refl, ◌≢◌, Bool, true, false, none, some,
  List, [], ◌∷◌, arith, Text, All, text_eq, text_eq_iff, text_eq_refl, is_empty,
}
use royak.World.Json.{as_str, as_u64, index, get, get_field}
use royak.Lease.{
  ltb, not, Serde, FileIo, LeaseFile, lease_ttl_secs, key_leader, key_acquired_at, lease_body,
  write_lease_atomic, may_claim, try_acquire_lease, release_lease,
}

pub record Attempt : Type 0 where
  pub io : FileIo
  pub our_id : Text
  pub now : ℕ

lease_body-leader : (id : Text) (t : ℕ) → as_str (index key_leader (lease_body id t)) ≡ some id
unfolding lease_body as_str index get get_field text_eq
lease_body-leader id t = refl

lease_body-acquired :
    (id : Text) (t : ℕ) → as_u64 (index key_acquired_at (lease_body id t)) ≡ some t
unfolding lease_body as_u64 index get get_field text_eq
lease_body-acquired id t = refl

is_empty-false {ℓ} : {A : Type ℓ} (xs : List A) → xs ≢ [] → is_empty xs ≡ false
unfolding is_empty
is_empty-false [] h = absurd (h refl)
is_empty-false (x ∷ xs) h = refl

-- `parse-print`: serde_json reads back the lease that it has printed.
module _ (serde : Serde)
    (parse-print : (id : Text) (t : ℕ)
      → serde.parse (serde.print (lease_body id t)) ≡ some (lease_body id t)) where
  abbrev pub held_by : Text → ℕ → LeaseFile
  held_by id t = some (serde.print (lease_body id t))

  -- The results of attempts made one after another, and the file at the end.
  unfoldable pub attempts : LeaseFile → List Attempt → List Bool × LeaseFile
  attempts file [] = ([], file)
  attempts file (a ∷ as') =
      let (won, file') = try_acquire_lease serde a.io file a.our_id a.now in
      let (rest, last) = attempts file' as' in (won ∷ rest, last)

  may_claim-held :
      (a b : Text) (t now : ℕ)
      → may_claim serde (held_by a t) b now
        ≡ (text_eq a b || not (ltb (now - t) lease_ttl_secs && not (is_empty a)))
  unfolding may_claim
  may_claim-held a b t now =
      ground (arith, parse-print a t, lease_body-leader a t, lease_body-acquired a t)

  try-held :
      (a b : Text) (t now : ℕ) (io : FileIo)
      → a ≢ []
      → b ≢ a
      → now < t + lease_ttl_secs
      → try_acquire_lease serde io (held_by a t) b now ≡ (false, held_by a t)
  unfolding try_acquire_lease
  try-held a b t now io nonempty other fresh = ground (
    arith,
    may_claim-held a b t now,
    text_eq_iff a b,
    is_empty-false a nonempty,
    λ (e : a ≡ b). other (sym e),
  )

  -- What a successful attempt leaves in the file.
  try-won :
      (file file' : LeaseFile) (a : Text) (t : ℕ) (io : FileIo)
      → try_acquire_lease serde io file a t ≡ (true, file')
      → file' ≡ held_by a t
  unfolding try_acquire_lease write_lease_atomic
  try-won file file' a t io h = ground arith

  attempts-held :
      (a : Text) (t : ℕ) (later : List Attempt)
      → a ≢ []
      → All (λ r. (r.our_id ≢ a) × (r.now < t + lease_ttl_secs)) later
      → All (λ won. won ≡ false) (attempts (held_by a t) later).0
        × ((attempts (held_by a t) later).1 ≡ held_by a t)
  unfolding attempts
  attempts-held a t [] nonempty h = (tt, refl)
  attempts-held a t (r ∷ rest) nonempty h =
      let rest_held = attempts-held a t rest nonempty h.1 in
      rw (try-held a r.our_id t r.now r.io nonempty h.0.0 h.0.1) ((refl, rest_held.0), rest_held.1)

  -- Once an instance holds the lease, every attempt of another one in the next 15 seconds fails and
  -- leaves the lease in place, however many there are.
  pub try_acquire_lease-exclusive :
      (file file' : LeaseFile) (a : Text) (t : ℕ) (io : FileIo) (later : List Attempt)
      → a ≢ []
      → try_acquire_lease serde io file a t ≡ (true, file')
      → All (λ r. (r.our_id ≢ a) × (r.now < t + lease_ttl_secs)) later
      → All (λ won. won ≡ false) (attempts file' later).0 × ((attempts file' later).1 ≡ file')
  try_acquire_lease-exclusive file file' a t io later nonempty won h =
      rw (try-won file file' a t io won) (attempts-held a t later nonempty h)

  -- Where the file operations succeed, a further attempt succeeds exactly for the holder and, once 15
  -- seconds have passed since the last renewal, for everybody; it starts a term of the winner.
  pub try_acquire_lease-takeover :
      (a b : Text) (t now : ℕ) (io : FileIo)
      → a ≢ []
      → io.write_ok ≡ true
      → io.rename_ok ≡ true
      → (try_acquire_lease serde io (held_by a t) b now ≡ (true, held_by b now))
        ↔ ((b ≡ a) ⊎ (t + lease_ttl_secs ≤ now))
  unfolding try_acquire_lease write_lease_atomic
  try_acquire_lease-takeover a b t now io nonempty w r = (
    λ won. ground (arith, may_claim-held a b t now, text_eq_iff a b, is_empty-false a nonempty),
    λ allowed. ground (arith, may_claim-held a b t now, text_eq_iff a b),
  )

  -- Releasing frees the lease of the caller, for the next attempt of anybody, and no other's.
  pub release_lease-frees :
      (a b : Text) (t now : ℕ) (io : FileIo)
      → b ≢ a
      → (release_lease serde true (held_by a t) b ≡ held_by a t)
        × (release_lease serde true (held_by a t) a ≡ none)
        × (try_acquire_lease serde io none b now ≡ write_lease_atomic serde io none b now)
  unfolding release_lease try_acquire_lease may_claim
  release_lease-frees a b t now io other = (
    ground (
      arith,
      parse-print a t,
      lease_body-leader a t,
      text_eq_iff a b,
      λ (e : a ≡ b). other (sym e),
    ),
    ground (arith, parse-print a t, lease_body-leader a t, text_eq_refl a),
    refl,
  )
