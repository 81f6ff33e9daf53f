-- ===== src/Hpa/Laws.antt =====
-- The bounds of a scaling decision, and that the stabilisation window holds between two passes.
use royak.Prelude.{ℕ, ◌+◌, ◌^◌, ◌≤◌, ◌<◌, ◌≡◌, ◌⊎◌, true, some, arith}
use royak.World.Workloads.{F32}
use royak.Hpa.{FloatOps, half, hpa_decision}

-- What IEEE arithmetic says of the ratio: multiplying a count that f32 holds exactly by a quotient of
-- a larger and a smaller positive number does not make it smaller.
pub record RatioGrows (ops : FloatOps) : Type 0 where
  pub grows :
      (current : ℕ) (avg target : F32)
      → current ≤ 2 ^ 24
      → ops.lt 0 target ≡ true
      → ops.lt target avg ≡ true
      → current ≤ ops.ceil_u32 (ops.mul (ops.of_u32 current) (ops.div avg target))

-- A decision acts only after the window, and either grows the count up to the maximum under high
-- load or lowers it by one, not below the minimum, under low load.
pub record IsScaling (ops : FloatOps) (current : ℕ) (avg target : F32) (lo hi since window t : ℕ)
    : Type 0 where
  pub cooled : window ≤ since
  pub direction :
      ((ops.lt target avg ≡ true) × (current < t) × (t ≤ hi))
      ⊎ ((ops.lt avg (ops.mul target half) ≡ true) × (lo ≤ t) × (t + 1 ≡ current))

module _ (ops : FloatOps) where
  -- With IEEE arithmetic, a positive target and at most 2 ^ 24 replicas, a decision to scale to `t` is
  -- made only after the window, and it raises the count, at most to the maximum, under high load or
  -- lowers it by one, not below the minimum, under low load.
  pub hpa_decision-IsScaling :
      (current : ℕ) (avg target : F32) (lo hi since window t : ℕ)
      → RatioGrows ops
      → current ≤ 2 ^ 24
      → ops.lt 0 target ≡ true
      → hpa_decision ops current avg target lo hi since window ≡ some t
      → IsScaling ops current avg target lo hi since window t
  unfolding hpa_decision
  hpa_decision-IsScaling current avg target lo hi since window t ratio small positive h =
      let up : ops.lt target avg ≡ true
          → current ≤ ops.ceil_u32 (ops.mul (ops.of_u32 current) (ops.div avg target)) =
        ratio.grows current avg target small positive in
      record { cooled = ground arith; direction = ground arith }
