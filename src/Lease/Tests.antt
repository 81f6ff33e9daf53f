-- ===== src/Lease/Tests.antt =====
-- A lease file with one number for the time and the rest for the holder, and the theorems on it.
use royak.Lease.Exclusion.{
  try_acquire_lease-takeover, release_lease-frees, try_acquire_lease-exclusive, attempts, held_by,
  Attempt,
}
use royak.World.Json.{as_u64, as_str, get_field, get, index}
use royak.Lease.Race.{interleave-two_leaders, calling, interleave}
use royak.Lease.{
  key_leader, key_acquired_at, write_lease_atomic, may_claim, release_lease, try_acquire_lease,
  FileIo, lease_body, Serde,
}
use royak.Prelude.{
  ℕ, ◌≤◌, unwrap_or, ◌+◌, arith, some, ◌⊎◌, [], none, ◌↔◌, ◌∷◌, text_ne, false, ◌≡◌, ◌≢◌, codes,
  true, All, List, text_eq, Text, refl,
}

abbrev plain : Serde
plain = record {
  parse = elim [ [] ↦ none | t ∷ id ↦ some (lease_body id t) ];
  print = λ j.
      unwrap_or (as_u64 (index key_acquired_at j)) 0 ∷ unwrap_or (as_str (index key_leader j)) [];
}

plain-parse :
    (id : Text) (t : ℕ) → plain.parse (plain.print (lease_body id t)) ≡ some (lease_body id t)
unfolding lease_body index get get_field as_str as_u64 text_eq
plain-parse id t = refl

abbrev working : FileIo
working = record { write_ok = true; rename_ok = true }

abbrev node_a : Text
node_a = codes "a"

abbrev node_b : Text
node_b = codes "b"

a_leads :
    try_acquire_lease plain working none node_a 100 ≡ (true, held_by plain plain-parse node_a 100)
unfolding try_acquire_lease may_claim write_lease_atomic
a_leads = refl

a-ne-b : node_b ≢ node_a
unfolding text_eq
a-ne-b = text_ne node_b node_a refl

abbrev retries : List Attempt
retries = record { io = working; our_id = node_b; now = 114 } ∷ []

try_acquire_lease-exclusive_example :
    All
      (λ won. won ≡ false)
      (attempts plain plain-parse (held_by plain plain-parse node_a 100) retries).0
    × ((attempts plain plain-parse (held_by plain plain-parse node_a 100) retries).1
        ≡ held_by plain plain-parse node_a 100)
try_acquire_lease-exclusive_example =
    try_acquire_lease-exclusive plain plain-parse none (held_by plain plain-parse node_a 100) node_a
      100 working retries (λ e. cc) a_leads ((a-ne-b, omega arith), tt)

try_acquire_lease-takeover_example :
    (try_acquire_lease plain working (held_by plain plain-parse node_a 100) node_b 115
      ≡ (true, held_by plain plain-parse node_b 115))
    ↔ ((node_b ≡ node_a) ⊎ (100 + 15 ≤ 115))
try_acquire_lease-takeover_example =
    try_acquire_lease-takeover plain plain-parse node_a node_b 100 115 working (λ e. cc) refl refl

release_lease-frees_example :
    (release_lease plain true (held_by plain plain-parse node_a 100) node_b
      ≡ held_by plain plain-parse node_a 100)
    × (release_lease plain true (held_by plain plain-parse node_a 100) node_a ≡ none)
    × (try_acquire_lease plain working none node_b 101
        ≡ write_lease_atomic plain working none node_b 101)
release_lease-frees_example =
    release_lease-frees plain plain-parse node_a node_b 100 101 working a-ne-b

interleave-two_leaders_example :
    let s = interleave plain working 100 (false ∷ true ∷ false ∷ true ∷ []) (record {
      file = none;
      first = calling plain working 100 node_a;
      second = calling plain working 100 node_b;
    }) in
    (s.first.leads ≡ some true)
    × (s.second.leads ≡ some true)
    × (s.file ≡ (write_lease_atomic plain working none node_b 100).1)
unfolding may_claim
interleave-two_leaders_example =
    interleave-two_leaders plain working 100 none node_a node_b refl refl refl refl
