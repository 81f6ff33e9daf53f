-- ===== src/World/Manifest.antt =====
-- src/spec.rs: a manifest, and the typed specs that serde_yaml reads out of its `spec`. The fields
-- that nothing reads are left out.
use royak.Prelude.{ℕ, Bool, Option, List, Text, Map}
use royak.World.Workloads.{F32}
use royak.World.Yaml.{Yaml}

pub record Metadata : Type 0 where
  pub name : Text
  pub namespace : Option Text

pub record Resource : Type 0 where
  pub kind : Text
  pub metadata : Metadata
  pub spec : Option Yaml
  -- the field `data`
  pub values : Option Yaml
  pub string_data : Option Yaml
  pub rules : Option Yaml
  pub subjects : Option Yaml
  pub role_ref : Option Yaml

pub record EnvVar : Type 0 where
  pub name : Text
  pub value : Option Text

pub record EnvFromSpec : Type 0 where
  pub config_map_ref : Option Text
  pub secret_ref : Option Text

pub record ProbeSpec : Type 0 where
  pub http_get : Option (Text × ℕ)
  pub exec : Option (List Text)
  pub initial_delay_seconds : ℕ
  pub period_seconds : ℕ
  pub failure_threshold : ℕ

pub record ResourceSpec : Type 0 where
  pub limits : Option (Map Text)
  pub requests : Option (Map Text)

pub record VolumeMount : Type 0 where
  pub name : Text
  pub mount_path : Text

pub record ContainerSpec : Type 0 where
  pub name : Text
  pub image : Text
  pub env : Option (List EnvVar)
  pub env_from : Option (List EnvFromSpec)
  pub command : Option (List Text)
  pub resources : Option ResourceSpec
  pub volume_mounts : Option (List VolumeMount)
  pub liveness_probe : Option ProbeSpec
  pub readiness_probe : Option ProbeSpec
  pub startup_probe : Option ProbeSpec

pub record VolumeSpec : Type 0 where
  pub name : Text
  pub host_path : Option Text
  pub pvc : Option Text
  pub empty_dir : Option Yaml
  pub config_map : Option Text
  pub secret : Option Text

pub record PodSpec : Type 0 where
  pub init_containers : Option (List ContainerSpec)
  pub containers : List ContainerSpec
  pub volumes : Option (List VolumeSpec)

pub record StrategySpec : Type 0 where
  pub strategy_type : Text
  pub weight : Option ℕ
  pub max_surge : Option ℕ
  pub max_unavailable : Option ℕ
  pub active : Option Text

-- `template` is the spec of the template.
pub record DeploymentSpec : Type 0 where
  pub replicas : Option ℕ
  pub template : PodSpec
  pub strategy : Option StrategySpec
  -- the names of the templates
  pub volume_claim_templates : Option (List Text)

pub record ServicePortSpec : Type 0 where
  pub port : ℕ
  pub target_port : Option ℕ
  pub protocol : Option Text
  pub node_port : Option ℕ

pub record ServiceSpec : Type 0 where
  pub selector : Option (Map Text)
  pub ports : List ServicePortSpec
  pub service_type : Option Text

pub record LlmConfig : Type 0 where
  pub host : Option Text
  pub model : Option Text
  pub temperature : Option F32

pub record AlertConfig : Type 0 where
  pub webhook : Option Text
  pub on_anomaly : Option Bool
  pub on_restart : Option Bool
  pub on_rollout : Option Bool

pub record PauseConfig : Type 0 where
  pub default_idle_seconds : Option ℕ
  pub enabled : Option Bool

-- `api` is the port of the API section, which is optional in an optional section.
pub record ClusterConfigSpec : Type 0 where
  pub llm : Option LlmConfig
  pub alerts : Option AlertConfig
  pub runtime : Option Text
  pub pause : Option PauseConfig
  pub api : Option (Option ℕ)

pub record FunctionTrigger : Type 0 where
  pub http : Option Text
  pub webhook : Option Text
  pub schedule : Option Text

pub record FunctionSpec : Type 0 where
  pub runtime : Option Text
  pub handler : Option Text
  pub image : Option Text
  pub command : Option (List Text)
  pub trigger : Option (List FunctionTrigger)
  pub timeout : Option Text
  pub memory : Option Text
  pub env : Option (List EnvVar)
  pub code : Option Text

pub record RepositorySpec : Type 0 where
  pub url : Option Text
  pub path : Option Text
  pub branch : Option Text
  pub secret_ref : Option Text
  pub pipeline : Option Text

pub record PipelineTrigger : Type 0 where
  pub trigger_type : Text
  pub path : Option Text

pub record MatrixSpec : Type 0 where
  pub image : Option (List Text)
  pub env : Option (List Text)

pub record PipelineStage : Type 0 where
  pub name : Text
  pub image : Option Text
  pub command : Option (List Text)
  pub action : Option Text
  pub file : Option Text
  pub context : Option Text
  pub dockerfile : Option Text
  pub tag : Option Text
  pub args : Option (List EnvVar)
  pub artifacts : Option (List Text)
  pub depends_on : Option Text
  pub env : Option (List EnvVar)
  pub if_condition : Option Text
  pub matrix : Option MatrixSpec

pub record PipelineSpec : Type 0 where
  pub trigger : Option (List PipelineTrigger)
  pub stages : List PipelineStage
