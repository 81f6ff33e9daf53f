-- ===== src/Apply/Runs.antt =====
-- src/reconcile.rs, `DesiredWorld::apply`: sets, jobs and autoscalers. The first container is taken by
-- index, which panics where there is none.
use royak.Prelude.{
  unwrap_or, ◌>>=◌, decimal, insert, Text, codes, ◌%◌, ◌^◌, Option, none, some, List, [], ◌∷◌, ◌++◌,
}
use royak.Apply.Base.{Arm, Readers, Applied, done, failed, needs, namespace_of, no_spec}
use royak.Apply.Workloads.{as_deployment}
use royak.Apply.Workloads.Containers.{init_container}
use royak.World.Yaml.{get_at_path, as_text, as_number, text_at}
use royak.World.Manifest.{Resource, DeploymentSpec, ContainerSpec}
use royak.World.Workloads.{JobStatus}
use royak.World.State.{DesiredWorld}

-- `none` is a panic: `containers[0]` of no containers.
abbrev pub PanickingArm : Type 0
PanickingArm = DesiredWorld → Resource → Option Applied

abbrev pub first_container : DeploymentSpec → Option ContainerSpec
first_container dep = head dep.template.containers
  where
    head : List ContainerSpec → Option ContainerSpec
    head [] = none
    head (c ∷ cs) = some c

unfoldable pub with_spec :
    DesiredWorld
    → Text
    → Option DeploymentSpec
    → (DeploymentSpec → ContainerSpec → Applied)
    → Option Applied
unfolding failed
with_spec w message none k = some (failed message w)
with_spec w message (some dep) k = first_container dep >>= λ c. some (k dep c)

unfoldable pub store_daemon_set : DesiredWorld → Resource → ContainerSpec → Applied
unfolding done
store_daemon_set w r c =
    let name = r.metadata.name in
    done (codes "daemonset/" ++ name ++ codes " applied (runs on every node)") (record w {
      daemonsets =
          insert name
            (record { name = name; namespace = namespace_of r; container = init_container c })
            w.daemonsets;
    })

unfoldable pub store_job : DesiredWorld → Resource → DeploymentSpec → ContainerSpec → Applied
unfolding done
store_job w r dep c =
    let name = r.metadata.name in
    let completions = unwrap_or dep.replicas 1 in
    done
      (codes "job/" ++ name ++ codes " created (completions: " ++ decimal completions ++ codes ")")
      (record w {
        jobs =
            insert name
              (record {
                name = name;
                namespace = namespace_of r;
                container = init_container c;
                completions = completions;
                status = JobStatus.pending;
              })
              w.jobs;
      })

unfoldable pub store_cron_job : DesiredWorld → Resource → ContainerSpec → Applied
unfolding done
store_cron_job w r c =
    let name = r.metadata.name in
    let schedule =
      unwrap_or (r.spec >>= get_at_path (codes "schedule" ∷ []) >>= as_text)
        (codes "*/5 * * * *") in
    done (codes "cronjob/" ++ name ++ codes " scheduled (" ++ schedule ++ codes ")") (record w {
      cronjobs =
          insert name
            (record {
              name = name;
              namespace = namespace_of r;
              schedule = schedule;
              container = init_container c;
              last_run = none;
            })
            w.cronjobs;
    })

module _ (read : Readers) where
  -- `spec::as_deployment(resource).ok_or(message)?` and the first container.
  unfoldable pub with_container :
      DesiredWorld → Resource → Text → (DeploymentSpec → ContainerSpec → Applied) → Option Applied
  unfolding with_spec
  with_container w r message k = with_spec w message (as_deployment read r) k

  unfoldable pub apply_daemon_set : PanickingArm
  unfolding with_container
  apply_daemon_set w r =
      with_container w r (codes "Invalid DaemonSet spec") (λ dep c. store_daemon_set w r c)

  unfoldable pub apply_job : PanickingArm
  unfolding with_container
  apply_job w r = with_container w r (codes "Invalid Job spec") (store_job w r)

  unfoldable pub apply_cron_job : PanickingArm
  unfolding with_container
  apply_cron_job w r =
      with_container w r (codes "Invalid CronJob spec") (λ dep c. store_cron_job w r c)

  -- 70.0 as an f32 is 0x428c0000.
  unfoldable pub apply_autoscaler : Arm
  unfolding needs done
  apply_autoscaler w r = needs r.spec no_spec w (λ spec.
      let name = r.metadata.name in
      let deployment = text_at (codes "scaleTargetRef" ∷ codes "name" ∷ []) [] spec in
      let min_replicas =
        unwrap_or (get_at_path (codes "minReplicas" ∷ []) spec >>= as_number) 1 % 2 ^ 32 in
      let max_replicas =
        unwrap_or (get_at_path (codes "maxReplicas" ∷ []) spec >>= as_number) 10 % 2 ^ 32 in
      let target_cpu =
        unwrap_or (get_at_path (codes "targetCPUUtilizationPercentage" ∷ []) spec >>= read.as_f32)
          0x428c0000 in
      done
        (codes "hpa/"
          ++ name
          ++ codes " "
          ++ (226 ∷ 134 ∷ 146 ∷ [])
          ++ codes " "
          ++ deployment
          ++ codes " (min="
          ++ decimal min_replicas
          ++ codes ", max="
          ++ decimal max_replicas
          ++ codes ", cpu="
          ++ read.show_f32 target_cpu
          ++ codes "%)")
        (record w {
          hpas =
              insert name
                (record {
                  name = name;
                  deployment = deployment;
                  min_replicas = min_replicas;
                  max_replicas = max_replicas;
                  target_cpu = target_cpu;
                  history = [];
                  last_scaled = none;
                })
                w.hpas;
        }))
