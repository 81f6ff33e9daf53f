-- ===== src/Apply/Dispatch/Atomic/Workloads.antt =====
-- The arms of the workloads.
use royak.Apply.Dispatch.Atomic.Base.{done-Keeps, Atomic, failed-Keeps, KeepsArm, Keeps}
use royak.Prelude.{
  Option-cases, ◌>>=◌, Text, ◌≡◌, refl, subst, inl, inr, Option, none, some, List, [], ◌∷◌,
}
use royak.Apply.Base.{Readers, Applied}
use royak.Apply.Workloads.{
  store_containers, as_deployment, apply_deployment, store_deployment, rolling_from,
}
use royak.Apply.Runs.{
  store_daemon_set, store_job, store_cron_job, with_spec, with_container, apply_daemon_set,
  apply_job, apply_cron_job,
}
use royak.World.Manifest.{Resource, DeploymentSpec, ContainerSpec}
use royak.World.Workloads.{StoredContainer}
use royak.World.State.{DesiredWorld}

store_deployment-Keeps :
    (read : Readers) (w : DesiredWorld) (r : Resource) (dep : DeploymentSpec) (c : StoredContainer)
    (cs : List StoredContainer)
    → Keeps w (store_deployment read w r dep c cs)
unfolding store_deployment
store_deployment-Keeps read w r dep c cs =
    elim (Option-cases (rolling_from w.deployments r.metadata.name c.image)) [
      | inl e ↦ rw (e, store_deployment) (λ x h. absurd (cc h))
      | inr (i, e) ↦ rw (e, store_deployment) (λ x h. absurd (cc h))
    ]

store_containers-Keeps :
    (read : Readers) (w : DesiredWorld) (r : Resource) (dep : DeploymentSpec)
    (cs : List StoredContainer)
    → Keeps w (store_containers read w r dep cs)
unfolding store_containers
store_containers-Keeps read w r dep [] = λ e h. refl
store_containers-Keeps read w r dep (c ∷ cs) = store_deployment-Keeps read w r dep c cs

deployment_spec-Keeps :
    (read : Readers) (w : DesiredWorld) (r : Resource) (dep : DeploymentSpec)
    → as_deployment read r ≡ some dep
    → Keeps w (apply_deployment read w r)
unfolding apply_deployment
deployment_spec-Keeps read w r dep e =
    rw (e, apply_deployment) (store_containers-Keeps read w r dep _)

pub apply_deployment-Keeps : (read : Readers) → KeepsArm (apply_deployment read)
unfolding apply_deployment
apply_deployment-Keeps read w r = elim (Option-cases (as_deployment read r)) [
  | inl e ↦ elim (Option-cases r.spec) [
    | inl f ↦ rw (e, f, apply_deployment) (failed-Keeps _ w)
    | inr (sv, f) ↦ rw (e, f, apply_deployment) (failed-Keeps _ w)
  ]
  | inr (dep, e) ↦ deployment_spec-Keeps read w r dep e
]

bind-Keeps {ℓ} :
    {A : Type ℓ} (w : DesiredWorld) (o : Option A) (k : A → Applied) (a : Applied)
    → ((x : A) → Keeps w (k x))
    → (o >>= λ x. some (k x)) ≡ some a
    → Keeps w a
bind-Keeps w none k a h e = absurd (cc e)
bind-Keeps w (some x) k a h e = subst (Keeps w) (some-inj e) (h x)
  where
    some-inj : {a b : Applied} → some a ≡ some b → a ≡ b
    some-inj e = cc e

with_spec-Keeps :
    (w : DesiredWorld) (message : Text) (o : Option DeploymentSpec)
    (k : DeploymentSpec → ContainerSpec → Applied) (a : Applied)
    → ((d : DeploymentSpec) (c : ContainerSpec) → Keeps w (k d c))
    → with_spec w message o k ≡ some a
    → Keeps w a
unfolding with_spec
with_spec-Keeps w message none k a h e = subst (Keeps w) (some-inj e) (failed-Keeps message w)
  where
    some-inj : {a b : Applied} → some a ≡ some b → a ≡ b
    some-inj e = cc e
with_spec-Keeps w message (some dep) k a h e = bind-Keeps w _ (k dep) a (h dep) e

pub apply_daemon_set-Atomic : (read : Readers) → Atomic (apply_daemon_set read)
unfolding apply_daemon_set with_container store_daemon_set
apply_daemon_set-Atomic read = record {
  keeps = λ w r a e. with_spec-Keeps w _ (as_deployment read r) _ a (λ d c. done-Keeps _ w _) e;
}

pub apply_job-Atomic : (read : Readers) → Atomic (apply_job read)
unfolding apply_job with_container store_job
apply_job-Atomic read = record {
  keeps = λ w r a e. with_spec-Keeps w _ (as_deployment read r) _ a (λ d c. done-Keeps _ w _) e;
}

pub apply_cron_job-Atomic : (read : Readers) → Atomic (apply_cron_job read)
unfolding apply_cron_job with_container store_cron_job
apply_cron_job-Atomic read = record {
  keeps = λ w r a e. with_spec-Keeps w _ (as_deployment read r) _ a (λ d c. done-Keeps _ w _) e;
}
