-- ===== src/StatefulSet.antt =====
-- src/reconcile.rs, `next_statefulset_ordinal`: which ordinal a StatefulSet may create in a tick.
-- A set of ordinals is a list.
pub mod Laws
mod Tests
use royak.Prelude.{
  ◌>>=◌, ℕ, zero, suc, ◌-◌, Bool, Option, none, some, List, any, ◌==◌, if◌then◌else◌,
}

pub member : ℕ → List ℕ → Bool
member n s = any (λ m. m == n) s

-- `(k..k + left).find(|n| !existing.contains(n))`
first_missing : List ℕ → ℕ → ℕ → Option ℕ
first_missing existing k zero = none
first_missing existing k (suc left) =
    let rest = first_missing existing (suc k) left in if member k existing then rest else some k

unfoldable pub next_statefulset_ordinal : List ℕ → List ℕ → ℕ → Option ℕ
unfolding first_missing
next_statefulset_ordinal existing ready desired_count = if desired_count == 0 then none else do
  next ← first_missing existing 1 desired_count
  if next == 1 then some 1 else if member (next - 1) ready then some next else none
