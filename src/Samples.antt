-- ===== src/Samples.antt =====
-- Concrete resources for the runs and examples of the other modules.
use royak.Apply.Base.{Readers, Outcome}
use royak.World.Json.{Json}
use royak.Prelude.{some, inl}
use royak.Prelude.{ℕ, false, none, [], Text, codes, ◌∷◌}
use royak.World.Workloads.{StoredDeployment}
use royak.World.Services.{StoredService}
use royak.World.Cluster.{ClusterNode, NodeStatus}
use royak.World.State.{DesiredWorld, new_world}

abbrev pub plain_deployment : Text → ℕ → StoredDeployment
plain_deployment name replicas = record {
  name = name;
  namespace = codes "default";
  replicas = replicas;
  init_containers = [];
  containers = [];
  image = codes "nginx";
  previous_image = none;
  command = none;
  env = [];
  resource_limits = none;
  strategy = none;
  pause_after_idle = none;
  paused = false;
  idle_since = none;
  stateful = false;
  owner_ref = none;
}

abbrev pub plain_service : Text → Text → StoredService
plain_service name app = record {
  name = name;
  namespace = codes "default";
  selector = (codes "app", app) ∷ [];
  ports = record { port = 80; target_port = 8080; protocol = codes "TCP"; node_port = none } ∷ [];
  service_type = codes "ClusterIP";
}

abbrev pub plain_node : Text → Text → ClusterNode
plain_node name address = record {
  name = name;
  address = address;
  cpu_capacity = 0;
  mem_capacity = 0;
  cpu_used = 0;
  mem_used = 0;
  pod_count = 0;
  status = NodeStatus.ready;
  last_heartbeat = 1000;
  neural_token = [];
  joined_at = 1000;
}

-- A deployment `web` of three pods.
abbrev pub web_world : DesiredWorld
web_world = record new_world { deployments = (codes "web", plain_deployment (codes "web") 3) ∷ [] }

-- Readers that find nothing.
abbrev pub no_readers : Readers
no_readers = record {
  deployment_spec = λ y. none;
  deployment_error = λ y. [];
  pod_spec = λ y. none;
  service_spec = λ y. none;
  config_spec = λ y. inl [];
  function_spec = λ y. inl [];
  repository_spec = λ y. inl [];
  pipeline_spec = λ y. inl [];
  to_json = λ y. Json.null;
  show_yaml = λ y. [];
  as_f32 = λ y. none;
  parse_f32 = λ s. none;
  per_thousand = λ x. x;
  show_f32 = λ x. [];
  from_utf8 = λ bs. some bs;
  neuropod = λ name image disk path env. Outcome.ok name;
}
