-- ===== src/Apply/Workloads/Rollout.antt =====
-- When applying a deployment starts a rolling update.
use royak.Apply.Base.{Readers}
use royak.Apply.Workloads.{
  as_deployment, apply_deployment, store_containers, store_deployment, rolling_from,
}
use royak.Apply.Workloads.Containers.{stored_container}
use royak.Prelude.{
  Map, lookup, insert, lookup-insert, lookup-insert_self, Text, text_eq, text_eq_iff, text_eq_sound,
  is_empty, unwrap_or, ◌>>=◌, ℕ, ◌≡◌, ◌≢◌, refl, Bool-cases, Option-cases, inl, inr, ap, subst, sym,
  true, Option, none, some, List, [], ◌∷◌, map, arith,
}
use royak.World.Manifest.{Resource, DeploymentSpec, ContainerSpec}
use royak.World.State.{DesiredWorld}
use royak.World.Workloads.{StoredDeployment, StoredContainer, RolloutState}

-- What becomes of the pending rollout of a deployment, by the deployment that was stored before.
pub data RollsOut (image : Text) (replicas : ℕ)
    : Option StoredDeployment → Option RolloutState → Option RolloutState → Type 0 where
  fresh : (before : Option RolloutState) → RollsOut image replicas none before before
  same_image :
      (old : StoredDeployment) (before : Option RolloutState)
      → old.image ≡ image
      → RollsOut image replicas (some old) before before
  no_image :
      (old : StoredDeployment) (before : Option RolloutState)
      → old.image ≡ []
      → RollsOut image replicas (some old) before before
  rolling :
      (old : StoredDeployment) (before : Option RolloutState)
      → old.image ≢ image
      → old.image ≢ []
      → RollsOut image replicas (some old) before (
          some (record {
            old_image = old.image;
            new_image = image;
            total_replicas = replicas;
            old_pods = [];
            new_pods_created = 0;
          }))

is_empty-nil : (t : Text) → is_empty t ≡ true → t ≡ []
unfolding is_empty
is_empty-nil [] h = refl
is_empty-nil (x ∷ t) h = absurd (cc h)

-- The rollout from an old image to a new one.
abbrev rollout_to : Text → Text → ℕ → RolloutState
rollout_to old_image image replicas = record {
  old_image = old_image;
  new_image = image;
  total_replicas = replicas;
  old_pods = [];
  new_pods_created = 0;
}

module _ (deployments : Map StoredDeployment) (name image : Text) (replicas : ℕ)
    (before : Option RolloutState) where
  rolling_from-none :
      rolling_from deployments name image ≡ none
      → RollsOut image replicas (lookup name deployments) before before
  unfolding rolling_from
  rolling_from-none h = elim (Option-cases (lookup name deployments)) [
    | inl e ↦ rw e (RollsOut.fresh before)
    | inr (old, e) ↦ elim (Bool-cases (text_eq old.image image)) [
      | inl same ↦ rw e (RollsOut.same_image old before (text_eq_sound old.image image same))
      | inr other ↦ rw e (RollsOut.no_image old before (is_empty-nil old.image (ground arith)))
    ]
  ]

  rolling_from-some :
      (old_image : Text)
      → rolling_from deployments name image ≡ some old_image
      → RollsOut image replicas
          (lookup name deployments)
          before
          (some (rollout_to old_image image replicas))
  unfolding rolling_from is_empty
  rolling_from-some old_image h = elim (Option-cases (lookup name deployments)) [
    | inl e ↦ absurd (ground arith)
    | inr (old, e) ↦
        let is_old : old.image ≡ old_image = ground arith in
        rw e (
          rw (← is_old) (
            RollsOut.rolling old before (λ same. ground (arith, text_eq_iff old.image image))
              (λ empty. let bare : is_empty old.image ≡ true = ap is_empty empty in ground arith)))
  ]

-- What the stored deployment and its rollout are afterwards.
pub record IsStored (w after : DesiredWorld) (name image : Text) (replicas : ℕ) : Type 0 where
  pub found :
      (new : StoredDeployment) × (lookup name after.deployments ≡ some new)
      × (new.image ≡ image)
      × (new.replicas ≡ replicas)
      × (new.previous_image ≡ (lookup name w.deployments >>= λ old. some old.image))
  pub others : (j : Text) → j ≢ name → lookup j after.deployments ≡ lookup j w.deployments
  pub rollout :
      RollsOut image replicas
        (lookup name w.deployments)
        (lookup name w.pending_rollouts)
        (lookup name after.pending_rollouts)

module _ (read : Readers) where
  store_deployment-IsStored :
      (w : DesiredWorld) (r : Resource) (dep : DeploymentSpec) (first : StoredContainer)
      (rest : List StoredContainer)
      → IsStored w
          (store_deployment read w r dep first rest).world
          r.metadata.name
          first.image
          (unwrap_or dep.replicas 1)
  unfolding store_deployment
  store_deployment-IsStored w r dep first rest =
      elim (Option-cases (rolling_from w.deployments r.metadata.name first.image)) [
        | inl e ↦
            rw (e, store_deployment)
              (record {
                found = (_, lookup-insert_self r.metadata.name _ w.deployments, refl, refl, refl);
                others = λ j ne. others r.metadata.name j _ w.deployments ne;
                rollout = rolling_from-none w.deployments r.metadata.name first.image _ _ e;
              })
        | inr (old_image, e) ↦
            rw (e, store_deployment)
              (record {
                found = (_, lookup-insert_self r.metadata.name _ w.deployments, refl, refl, refl);
                others = λ j ne. others r.metadata.name j _ w.deployments ne;
                rollout =
                    subst
                      (RollsOut first.image (unwrap_or dep.replicas 1)
                        (lookup r.metadata.name w.deployments)
                        (lookup r.metadata.name w.pending_rollouts))
                      (sym (lookup-insert_self r.metadata.name _ w.pending_rollouts))
                      (rolling_from-some w.deployments r.metadata.name first.image _ _ old_image e);
              })
      ]
    where
      others :
          (name j : Text) (d : StoredDeployment) (m : Map StoredDeployment)
          → j ≢ name
          → lookup j (insert name d m) ≡ lookup j m
      others name j d m ne = ground (arith, lookup-insert name j d m, text_eq_iff name j)

  store_containers-IsStored :
      (w : DesiredWorld) (r : Resource) (dep : DeploymentSpec) (volumes : Map Text)
      (containers : List ContainerSpec) (c : ContainerSpec) (cs : List ContainerSpec)
      → containers ≡ c ∷ cs
      → IsStored w
          (store_containers read w r dep (map (stored_container volumes) containers)).world
          r.metadata.name
          c.image
          (unwrap_or dep.replicas 1)
  unfolding store_containers stored_container
  store_containers-IsStored w r dep volumes containers c cs e =
      subst
        (λ xs.
          IsStored w (store_containers read w r dep (map (stored_container volumes) xs)).world
            r.metadata.name c.image (unwrap_or dep.replicas 1))
        (sym e)
        (store_deployment-IsStored w r dep (stored_container volumes c)
          (map (stored_container volumes) cs))

  -- Applying a deployment, or a kind that is stored as one, with at least one container stores it with
  -- the image of its first container and with the image from before as the previous one, leaves every
  -- other deployment alone, and sets a rollout from the image that was stored to the new one exactly if
  -- there was one, not empty, and it differs; elsewhere the pending rollout is as it was.
  pub apply_deployment-IsStored :
      (w : DesiredWorld) (r : Resource) (dep : DeploymentSpec) (c : ContainerSpec)
      (cs : List ContainerSpec)
      → as_deployment read r ≡ some dep
      → dep.template.containers ≡ c ∷ cs
      → IsStored w
          (apply_deployment read w r).world
          r.metadata.name
          c.image
          (unwrap_or dep.replicas 1)
  unfolding apply_deployment
  apply_deployment-IsStored w r dep c cs e some_container =
      rw (e, apply_deployment)
        (store_containers-IsStored w r dep _ dep.template.containers c cs some_container)
