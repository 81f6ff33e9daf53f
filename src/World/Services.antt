-- ===== src/World/Services.antt =====
-- src/reconcile.rs: services, ingresses, configuration, policies and volumes.
use royak.Prelude.{ℕ, Bool, Option, List, Map, Text}
use royak.World.Workloads.{F32}

pub record ServicePort : Type 0 where
  pub port : ℕ
  pub target_port : ℕ
  pub protocol : Text
  pub node_port : Option ℕ

pub record StoredService : Type 0 where
  pub name : Text
  pub namespace : Text
  pub selector : Map Text
  pub ports : List ServicePort
  pub service_type : Text

pub record IngressPath : Type 0 where
  pub path : Text
  pub service : Text
  pub port : ℕ

pub record IngressRule : Type 0 where
  pub host : Text
  pub paths : List IngressPath

pub record StoredIngress : Type 0 where
  pub name : Text
  pub namespace : Text
  pub rules : List IngressRule
  pub ingress_class : Option Text

pub record StoredConfigMap : Type 0 where
  pub name : Text
  pub namespace : Text
  pub values : Map Text

pub record StoredSecret : Type 0 where
  pub name : Text
  pub namespace : Text
  pub values : Map Text

pub record StoredNetworkPolicy : Type 0 where
  pub name : Text
  pub namespace : Text
  pub pod_selector : Text
  pub ingress_allow : List Text
  pub egress_allow : List Text
  pub ingress_ports : List ℕ
  pub egress_ports : List ℕ
  pub internal : Bool
  pub mtls_required : Bool
  pub deny_all : Bool

pub record StoredResourceQuota : Type 0 where
  pub name : Text
  pub namespace : Text
  pub hard_cpu : Option F32
  pub hard_memory : Option ℕ
  pub hard_pods : Option ℕ
  pub hard_services : Option ℕ
  pub hard_configmaps : Option ℕ
  pub hard_secrets : Option ℕ

pub record StoredLimitRange : Type 0 where
  pub name : Text
  pub namespace : Text
  pub default_cpu : Option Text
  pub default_mem : Option Text
  pub request_cpu : Option Text
  pub request_mem : Option Text

pub data PvStatus : Type 0 where
  available bound released : PvStatus

pub record StoredPv : Type 0 where
  pub name : Text
  pub capacity : Text
  pub storage_class : Text
  pub host_path : Text
  pub access_mode : Text
  pub status : PvStatus
  pub bound_to : Option Text

pub record StoredPvc : Type 0 where
  pub name : Text
  pub namespace : Text
  pub storage_class : Text
  pub requested : Text
  pub access_mode : Text
  pub bound_pv : Option Text

pub record StoredStorageClass : Type 0 where
  pub name : Text
  pub provisioner : Text
  pub host_path_prefix : Text
  pub reclaim_policy : Text
  pub provisioned_count : ℕ
