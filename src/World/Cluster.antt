-- ===== src/World/Cluster.antt =====
-- src/reconcile.rs and src/net_security.rs: nodes, configuration, roles, events, operators and the
-- records of network security.
use royak.Prelude.{ℕ, Bool, Option, List, Map, Text}
use royak.World.Json.{Json}
use royak.World.Workloads.{F32}

pub data NodeStatus : Type 0 where
  ready not_ready draining : NodeStatus

pub record ClusterNode : Type 0 where
  pub name : Text
  pub address : Text
  pub cpu_capacity : F32
  pub mem_capacity : F32
  pub cpu_used : F32
  pub mem_used : F32
  pub pod_count : ℕ
  pub status : NodeStatus
  pub last_heartbeat : ℕ
  pub neural_token : List F32
  pub joined_at : ℕ

pub record StoredConfig : Type 0 where
  pub llm_host : Text
  pub llm_model : Text
  pub llm_temperature : F32
  pub alert_webhook : Option Text
  pub alert_on_anomaly : Bool
  pub alert_on_restart : Bool
  pub alert_on_rollout : Bool
  pub runtime : Text
  pub pause_default_idle : ℕ
  pub pause_enabled : Bool
  pub api_port : ℕ

pub record RbacRule : Type 0 where
  pub resources : List Text
  pub verbs : List Text
  pub namespaces : List Text

pub record RbacRole : Type 0 where
  pub name : Text
  pub rules : List RbacRule

pub record AdmissionWebhook : Type 0 where
  pub name : Text
  pub url : Text
  pub kinds : List Text
  pub failure_policy : Text

pub record ClusterEvent : Type 0 where
  pub kind : Text
  pub object : Text
  pub reason : Text
  pub message : Text
  pub event_type : Text
  pub count : ℕ
  pub first_seen : Text
  pub last_seen : Text

pub record GuardRule : Type 0 where
  pub when : Text
  pub action : Text
  pub params : Map Text

pub record Guard : Type 0 where
  pub name : Text
  pub rules : List GuardRule
  pub hooks : Map Text

pub record OperatorComponent : Type 0 where
  pub role : Text
  pub image : Text
  pub replicas : ℕ
  pub env : List Text
  pub volumes : List Text
  pub ports : List ℕ

pub record Operator : Type 0 where
  pub name : Text
  pub custom_kind : Text
  pub provision : List OperatorComponent
  pub hooks : Map Text
  pub rules : List GuardRule

pub data CrStatus : Type 0 where
  pending provisioning running failed : CrStatus

pub record CustomResource : Type 0 where
  pub name : Text
  pub kind : Text
  pub namespace : Text
  pub spec : Json
  pub status : CrStatus

pub record PodCertStatus : Type 0 where
  pub pod_name : Text
  pub namespace : Text
  pub issued_at : ℕ
  pub expires_at : ℕ
  pub fingerprint : Text
  pub revoked : Bool

pub record ClusterCa : Type 0 where
  pub cert_pem : Text
  pub key_pem : Text
  pub fingerprint : Text
  pub issued_count : ℕ

pub record NetworkAuditEntry : Type 0 where
  pub timestamp : ℕ
  pub action : Text
  pub source : Text
  pub target : Text
  pub policy : Text
  pub result : Text

pub record NetworkPatternTracker : Type 0 where
  pub patterns : Map (List (Text × ℕ))
  pub baseline_ticks : ℕ
