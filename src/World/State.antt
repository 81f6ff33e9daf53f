-- ===== src/World/State.antt =====
-- src/reconcile.rs: the desired state of the cluster, as it starts.
use royak.Prelude.{ℕ, true, false, Option, none, List, [], ◌∷◌, Map, Text, codes}
use royak.World.Json.{Json}
use royak.World.Workloads.{
  StoredDeployment, StoredDaemonSet, StoredJob, StoredCronJob, StoredHpa, PodHealth, RolloutState,
  StoredPipeline, PipelineRun, StoredRepository, StoredFunction,
}
use royak.World.Services.{
  StoredService, StoredLimitRange, StoredIngress, StoredNetworkPolicy, StoredConfigMap,
  StoredSecret, StoredPv, StoredPvc, StoredResourceQuota, StoredStorageClass,
}
use royak.World.Cluster.{
  StoredConfig, ClusterNode, Guard, Operator, RbacRole, CustomResource, AdmissionWebhook,
  ClusterEvent, ClusterCa, NetworkAuditEntry, NetworkPatternTracker, PodCertStatus,
}

pub record DesiredWorld : Type 0 where
  pub deployments : Map StoredDeployment
  pub daemonsets : Map StoredDaemonSet
  pub jobs : Map StoredJob
  pub cronjobs : Map StoredCronJob
  pub hpas : Map StoredHpa
  pub services : Map StoredService
  pub restart_count : Map ℕ
  pub startup_ok : List Text
  pub netpol_applied : List Text
  pub ingress_classes : List Text
  pub limit_ranges : Map StoredLimitRange
  pub manifests : Map Json
  pub ingresses : Map StoredIngress
  pub network_policies : Map StoredNetworkPolicy
  pub configmaps : Map StoredConfigMap
  pub secrets : Map StoredSecret
  pub pvs : Map StoredPv
  pub pvcs : Map StoredPvc
  pub namespaces : List Text
  pub pod_health : Map PodHealth
  pub pending_rollouts : Map RolloutState
  pub pipelines : Map StoredPipeline
  pub pipeline_runs : List PipelineRun
  pub repositories : Map StoredRepository
  pub functions : Map StoredFunction
  pub config : StoredConfig
  pub nodes : Map ClusterNode
  pub guards : Map Guard
  pub operators : Map Operator
  pub rbac_roles : Map RbacRole
  pub custom_resources : Map CustomResource
  pub admission_webhooks : Map AdmissionWebhook
  pub events : List ClusterEvent
  pub cluster_ca : Option ClusterCa
  pub network_audit : List NetworkAuditEntry
  pub net_tracker : NetworkPatternTracker
  pub resource_quotas : Map StoredResourceQuota
  pub pod_certs : Map PodCertStatus
  pub storage_classes : Map StoredStorageClass

-- `StoredConfig::default()`; 0x3e99999a is the f32 nearest to 0.3.
unfoldable pub default_config : StoredConfig
default_config = record {
  llm_host = codes "http://localhost:11434";
  llm_model = codes "llama3.2:3b";
  llm_temperature = 0x3e99999a;
  alert_webhook = none;
  alert_on_anomaly = true;
  alert_on_restart = true;
  alert_on_rollout = false;
  runtime = codes "docker";
  pause_default_idle = 300;
  pause_enabled = true;
  api_port = 6443;
}

-- `DesiredWorld::new()`
unfoldable pub new_world : DesiredWorld
unfolding default_config
new_world = record {
  deployments = [];
  daemonsets = [];
  jobs = [];
  cronjobs = [];
  hpas = [];
  services = [];
  restart_count = [];
  startup_ok = [];
  netpol_applied = [];
  ingress_classes = [];
  limit_ranges = [];
  manifests = [];
  ingresses = [];
  network_policies = [];
  configmaps = [];
  secrets = [];
  pvs = [];
  pvcs = [];
  namespaces = codes "default" ∷ [];
  pod_health = [];
  pending_rollouts = [];
  pipelines = [];
  pipeline_runs = [];
  repositories = [];
  functions = [];
  config = default_config;
  nodes = [];
  guards = [];
  operators = [];
  rbac_roles = [];
  custom_resources = [];
  admission_webhooks = [];
  events = [];
  cluster_ca = none;
  network_audit = [];
  net_tracker = record { patterns = []; baseline_ticks = 0 };
  resource_quotas = [];
  pod_certs = [];
  storage_classes = [];
}
