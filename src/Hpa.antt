-- ===== src/Hpa.antt =====
-- src/reconcile.rs, `hpa_decision` and the part of `reconcile_with_runtime` that scales by it.
-- The `f32` operations and the sampled load are parameters.
pub mod Laws
mod Tests
use royak.Prelude.{
  ℕ, ◌-◌, ◌^◌, min, max, Bool, not, ◌&&◌, Option, none, some, List, [], ◌∷◌, Text, Map, lookup,
  modify, ltb, ◌==◌, if◌then◌else◌,
}
use royak.World.Workloads.{F32, StoredHpa, StoredDeployment}
use royak.World.State.{DesiredWorld}

-- IEEE arithmetic on f32, and its conversions.
pub record FloatOps : Type 0 where
  pub mul : F32 → F32 → F32
  pub div : F32 → F32 → F32
  pub lt : F32 → F32 → Bool
  pub of_u32 : ℕ → F32
  -- `x.ceil() as u32`
  pub ceil_u32 : F32 → ℕ

-- 0.5
abbrev pub half : F32
half = 0x3f000000

abbrev pub hpa_stabilization_secs : ℕ
hpa_stabilization_secs = 60

abbrev pub u64_max : ℕ
u64_max = 2 ^ 64 - 1

abbrev pub scale_to : ℕ → StoredDeployment → StoredDeployment
scale_to n d = record d { replicas = n }

abbrev pub stamp : ℕ → StoredHpa → StoredHpa
stamp now h = record h { last_scaled = some now }

-- The two deferred loops: the new replica counts, then the time stamps.
unfoldable pub apply_scales : List (Text × Text × ℕ) → Map StoredDeployment → Map StoredDeployment
apply_scales [] deployments = deployments
apply_scales ((key, dep, target) ∷ rest) deployments =
    apply_scales rest (modify dep (scale_to target) deployments)

unfoldable pub apply_stamps : ℕ → List (Text × Text × ℕ) → Map StoredHpa → Map StoredHpa
apply_stamps now [] hpas = hpas
apply_stamps now ((key, dep, target) ∷ rest) hpas =
    apply_stamps now rest (modify key (stamp now) hpas)

module _ (ops : FloatOps) where
  wanted : ℕ → F32 → F32 → ℕ → ℕ → Option ℕ
  wanted current avg target lo hi =
      if ops.lt target avg && ltb current hi
      then some (min (ops.ceil_u32 (ops.mul (ops.of_u32 current) (ops.div avg target))) hi)
      else if ops.lt avg (ops.mul target half) && ltb lo current
      then some (max (current - 1) lo)
      else none

  -- The arguments after the target are `min`, `max`, the seconds since the last scaling and the
  -- window.
  unfoldable pub hpa_decision : ℕ → F32 → F32 → ℕ → ℕ → ℕ → ℕ → Option ℕ
  unfolding wanted
  hpa_decision current avg target lo hi since window = elim (wanted current avg target lo hi) [
    | none ↦ none
    | some t ↦ if not (t == current) then if ltb since window then none else some t else none
  ]

  since_scale : ℕ → Option ℕ → ℕ
  since_scale now none = u64_max
  since_scale now (some t) = now - t

  -- The decision for one autoscaler, given the average load of a deployment's pods.
  unfoldable pub decide : DesiredWorld → (Text → F32) → ℕ → StoredHpa → Option ℕ
  unfolding since_scale
  decide w load now hpa = elim (lookup hpa.deployment w.deployments) [
    | none ↦ none
    | some dep ↦
        hpa_decision dep.replicas (load hpa.deployment) hpa.target_cpu hpa.min_replicas
          hpa.max_replicas (since_scale now hpa.last_scaled) hpa_stabilization_secs
  ]

  -- The autoscalers that act, with their targets: all are decided on the world before the pass.
  unfoldable pub actions : DesiredWorld → (Text → F32) → ℕ → Map StoredHpa → List (Text × Text × ℕ)
  unfolding decide
  actions w load now [] = []
  actions w load now ((key, hpa) ∷ rest) =
      let more = actions w load now rest in
      elim (decide w load now hpa) [
        | none ↦ more
        | some target ↦ (key, hpa.deployment, target) ∷ more
      ]

  unfoldable pub hpa_pass : DesiredWorld → (Text → F32) → ℕ → DesiredWorld
  hpa_pass w load now =
      let acts = actions w load now w.hpas in
      record w {
        deployments = apply_scales acts w.deployments;
        hpas = apply_stamps now acts w.hpas;
      }
