-- ===== src/Apply/Dispatch/Settled/Runs.antt =====
-- The arms that take the first container, run twice.
use royak.Apply.Dispatch.Settled.Base.{insert-twice, Settles, some-inj, Twice}
use royak.Prelude.{◌>>=◌, Text, ◌≡◌, refl, sym, ap, ◌∙◌, subst, Option, none, some}
use royak.Apply.Base.{Readers, Applied, done}
use royak.Apply.Workloads.{as_deployment}
use royak.Apply.Runs.{
  with_spec, with_container, apply_daemon_set, apply_job, apply_cron_job, first_container,
  store_daemon_set, store_job, store_cron_job,
}
use royak.World.Manifest.{DeploymentSpec, ContainerSpec}
use royak.World.State.{DesiredWorld}

bind-Twice {ℓ} :
    {A : Type ℓ} (o : Option A) (k : DesiredWorld → A → Applied) (w : DesiredWorld) (a b : Applied)
    → ((x : A) → Twice (λ w. k w x))
    → (o >>= λ x. some (k w x)) ≡ some a
    → (o >>= λ x. some (k a.world x)) ≡ some b
    → b.world ≡ a.world
bind-Twice none k w a b h e f = absurd (cc e)
bind-Twice (some x) k w a b h e f =
    ap (λ y. y.world) (sym (some-inj f))
    ∙ subst (λ y. (k y.world x).world ≡ y.world) (some-inj e) (h x w)

with_spec-Twice :
    (message : Text) (o : Option DeploymentSpec)
    (k : DesiredWorld → DeploymentSpec → ContainerSpec → Applied) (w : DesiredWorld) (a b : Applied)
    → ((d : DeploymentSpec) (c : ContainerSpec) → Twice (λ w. k w d c))
    → with_spec w message o (k w) ≡ some a
    → with_spec a.world message o (k a.world) ≡ some b
    → b.world ≡ a.world
unfolding with_spec
with_spec-Twice message none k w a b h e f = ap (λ x. x.world) (sym (some-inj f)) ∙ refl
with_spec-Twice message (some dep) k w a b h e f =
    bind-Twice (first_container dep) (λ w. k w dep) w a b (h dep) e f

pub apply_daemon_set-Settles : (read : Readers) → Settles (apply_daemon_set read)
unfolding apply_daemon_set with_container store_daemon_set done
apply_daemon_set-Settles read = record {
  again = λ w r a b.
      with_spec-Twice _ (as_deployment read r) (λ w d c. store_daemon_set w r c) w a b
        (λ d c w. ap (λ m. record w { daemonsets = m }) (insert-twice _ _ w.daemonsets));
}

pub apply_job-Settles : (read : Readers) → Settles (apply_job read)
unfolding apply_job with_container store_job done
apply_job-Settles read = record {
  again = λ w r a b.
      with_spec-Twice _ (as_deployment read r) (λ w d c. store_job w r d c) w a b
        (λ d c w. ap (λ m. record w { jobs = m }) (insert-twice _ _ w.jobs));
}

pub apply_cron_job-Settles : (read : Readers) → Settles (apply_cron_job read)
unfolding apply_cron_job with_container store_cron_job done
apply_cron_job-Settles read = record {
  again = λ w r a b.
      with_spec-Twice _ (as_deployment read r) (λ w d c. store_cron_job w r c) w a b
        (λ d c w. ap (λ m. record w { cronjobs = m }) (insert-twice _ _ w.cronjobs));
}
