-- ===== src/World/Workloads.antt =====
-- src/reconcile.rs: what runs: containers, deployments, sets, jobs, pipelines and functions.
use royak.Prelude.{ℕ, Bool, Option, List, Text}

-- An `f32`, as its bit pattern: the operations on it are parameters where they are used.
abbrev pub F32 : Type 0
F32 = ℕ

pub record ResourceLimits : Type 0 where
  pub cpu_request : Option F32
  pub cpu_limit : Option F32
  pub mem_request : Option ℕ
  pub mem_limit : Option ℕ

pub record CanaryStep : Type 0 where
  pub weight : ℕ
  pub pause_seconds : ℕ

pub data DeployStrategy : Type 0 where
  rolling_update : (max_surge max_unavailable : ℕ) → DeployStrategy
  canary : (weight : ℕ) → (steps : List CanaryStep) → DeployStrategy
  blue_green : (active : Text) → DeployStrategy

pub record StoredProbe : Type 0 where
  pub http_get : Option (Text × ℕ)
  pub exec : Option (List Text)
  pub initial_delay_seconds : ℕ
  pub period_seconds : ℕ
  pub failure_threshold : ℕ

pub record StoredContainer : Type 0 where
  pub name : Text
  pub image : Text
  pub command : Option (List Text)
  pub env : List Text
  pub env_from_configmaps : List Text
  pub env_from_secrets : List Text
  pub volumes : List (Text × Text)
  pub liveness_probe : Option StoredProbe
  pub readiness_probe : Option StoredProbe
  pub startup_probe : Option StoredProbe

pub record StoredDeployment : Type 0 where
  pub name : Text
  pub namespace : Text
  pub replicas : ℕ
  pub init_containers : List StoredContainer
  pub containers : List StoredContainer
  pub image : Text
  pub previous_image : Option Text
  pub command : Option (List Text)
  pub env : List Text
  pub resource_limits : Option ResourceLimits
  pub strategy : Option DeployStrategy
  pub pause_after_idle : Option ℕ
  pub paused : Bool
  pub idle_since : Option ℕ
  pub stateful : Bool
  pub owner_ref : Option Text

pub record StoredDaemonSet : Type 0 where
  pub name : Text
  pub namespace : Text
  pub container : StoredContainer

pub data JobStatus : Type 0 where
  pending running completed failed : JobStatus

pub record StoredJob : Type 0 where
  pub name : Text
  pub namespace : Text
  pub container : StoredContainer
  pub completions : ℕ
  pub status : JobStatus

pub record StoredCronJob : Type 0 where
  pub name : Text
  pub namespace : Text
  pub schedule : Text
  pub container : StoredContainer
  pub last_run : Option ℕ

pub record StoredHpa : Type 0 where
  pub name : Text
  pub deployment : Text
  pub min_replicas : ℕ
  pub max_replicas : ℕ
  pub target_cpu : F32
  pub history : List F32
  pub last_scaled : Option ℕ

-- Container identifiers in `old_pods`, oldest first.
pub record RolloutState : Type 0 where
  pub old_image : Text
  pub new_image : Text
  pub total_replicas : ℕ
  pub old_pods : List Text
  pub new_pods_created : ℕ

-- `created_at` is the reading of a monotonic clock.
pub record PodHealth : Type 0 where
  pub created_at : ℕ
  pub liveness_failures : ℕ
  pub readiness_failures : ℕ
  pub ready : Bool

pub data StageStatus : Type 0 where
  pending running succeeded failed skipped : StageStatus

pub record StoredStage : Type 0 where
  pub name : Text
  pub image : Option Text
  pub command : Option (List Text)
  pub action : Option Text
  pub file : Option Text
  pub context : Option Text
  pub dockerfile : Option Text
  pub tag : Option Text
  pub build_args : List (Text × Text)
  pub artifacts : List Text
  pub depends_on : Option Text
  pub env : List Text
  pub if_condition : Option Text
  pub matrix_images : List Text
  pub matrix_envs : List Text

pub record StoredTrigger : Type 0 where
  pub trigger_type : Text
  pub path : Option Text

pub record StoredPipeline : Type 0 where
  pub name : Text
  pub stages : List StoredStage
  pub triggers : List StoredTrigger

pub record PipelineRun : Type 0 where
  pub pipeline : Text
  pub run_id : ℕ
  pub stage_status : List (Text × StageStatus)
  pub started_at : ℕ

pub data FunctionState : Type 0 where
  cold warming hot paused : FunctionState

pub record StoredFunction : Type 0 where
  pub name : Text
  pub image : Text
  pub command : Option (List Text)
  pub env : List Text
  pub http_triggers : List Text
  pub webhook_triggers : List Text
  pub schedule_triggers : List Text
  pub timeout_secs : ℕ
  pub memory_mb : ℕ
  pub code : Option Text
  pub container_id : Option Text
  pub invocations : ℕ
  pub last_invoked : Option ℕ
  pub state : FunctionState

pub record StoredRepository : Type 0 where
  pub name : Text
  pub url : Option Text
  pub path : Option Text
  pub branch : Text
  pub secret_ref : Option Text
  pub pipeline : Option Text
  pub last_commit : Option Text
