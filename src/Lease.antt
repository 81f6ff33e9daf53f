-- ===== src/Lease.antt =====
-- src/reconcile.rs, the leader lease: `try_acquire_lease`, `release_lease`, `write_lease_atomic`.
-- The lease file is its content, if it exists; serde_json's parser and printer and the success of
-- the file operations are parameters. The temporary file is never read, so it is left out.
pub mod Exclusion
pub mod Race
mod Tests
use royak.Prelude.{
  ℕ, ◌-◌, Bool, true, false, not, ◌&&◌, Option, none, some, [], Text, codes, text_eq, is_empty, ltb,
  if◌then◌else◌, ◌>>=◌, unwrap_or,
}
use royak.World.Json.{Json, Number, Fields, as_str, as_u64, index}

abbrev pub lease_ttl_secs : ℕ
lease_ttl_secs = 15

pub record Serde : Type 0 where
  pub parse : Text → Option Json
  pub print : Json → Text

-- Whether `fs::write` of the temporary file and `fs::rename` succeed.
pub record FileIo : Type 0 where
  pub write_ok : Bool
  pub rename_ok : Bool

abbrev pub LeaseFile : Type 0
LeaseFile = Option Text

abbrev pub key_leader : Text
key_leader = codes "leader"

abbrev pub key_acquired_at : Text
key_acquired_at = codes "acquired_at"

unfoldable pub lease_body : Text → ℕ → Json
lease_body our_id now = Json.object (
    Fields.field key_leader (Json.str our_id) (
      Fields.field key_acquired_at (Json.num (Number.pos_int now))
        (Fields.field (codes "ttl_secs") (Json.num (Number.pos_int lease_ttl_secs)) Fields.end)))

module _ (serde : Serde) where
  unfoldable pub write_lease_atomic : FileIo → LeaseFile → Text → ℕ → Bool × LeaseFile
  write_lease_atomic io file our_id now =
      if io.write_ok && io.rename_ok
      then (true, some (serde.print (lease_body our_id now)))
      else (false, file)

  -- What the read part decides: whether to go on and write.
  unfoldable pub may_claim : LeaseFile → Text → ℕ → Bool
  may_claim file our_id now = elim (file >>= serde.parse) [
    | none ↦ true
    | some v ↦
        let leader = unwrap_or (as_str (index key_leader v)) [] in
        let acquired = unwrap_or (as_u64 (index key_acquired_at v)) 0 in
        let age = now - acquired in
        if text_eq leader our_id
        then true
        else if ltb age lease_ttl_secs && not (is_empty leader)
        then false
        else true
  ]

  unfoldable pub try_acquire_lease : FileIo → LeaseFile → Text → ℕ → Bool × LeaseFile
  try_acquire_lease io file our_id now =
      if may_claim file our_id now then write_lease_atomic io file our_id now else (false, file)

  -- A removal that fails leaves the file.
  unfoldable pub release_lease : Bool → LeaseFile → Text → LeaseFile
  release_lease remove_ok file our_id = elim (file >>= serde.parse) [
    | none ↦ file
    | some v ↦ elim (as_str (index key_leader v)) [
      | none ↦ file
      | some leader ↦ if text_eq leader our_id && remove_ok then none else file
    ]
  ]
