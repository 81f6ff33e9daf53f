-- ===== src/Flows.antt =====
-- src/flows.rs, the ring buffer of flow records: `record` and `snapshot`. The buffer is the list of
-- its records, the oldest first; the lock is never poisoned, since nothing panics while it is held.
pub mod Laws
mod Tests
use royak.Prelude.{leb, if◌then◌else◌, length, take, drop, Text, ℕ, ◌+◌, List, [], ◌∷◌, ◌++◌}

abbrev pub max_flows : ℕ
max_flows = 2000

pub record FlowRecord : Type 0 where
  pub via : Text
  pub source : Text
  pub dest : Text
  pub port : ℕ
  pub bytes_up : ℕ
  pub bytes_down : ℕ
  pub started : ℕ
  pub duration_ms : ℕ

unfoldable pub record_flow : List FlowRecord → FlowRecord → List FlowRecord
record_flow q f =
    let kept = drop 1 q in if leb max_flows (length q) then kept ++ f ∷ [] else q ++ f ∷ []

unfoldable pub rev {ℓ} : {A : Type ℓ} → List A → List A
rev [] = []
rev (x ∷ xs) = rev xs ++ x ∷ []

unfoldable pub snapshot : List FlowRecord → ℕ → List FlowRecord
snapshot q limit = take limit (rev q)
