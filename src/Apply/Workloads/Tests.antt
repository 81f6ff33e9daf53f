-- ===== src/Apply/Workloads/Tests.antt =====
-- The deployment `web` is applied with another image.
use royak.Apply.Base.{Readers}
use royak.Apply.Workloads.{as_deployment, apply_deployment}
use royak.Apply.Workloads.Rollout.{IsStored, apply_deployment-IsStored}
use royak.Prelude.{codes, text_eq, contains, ◌≡◌, refl, none, some, [], ◌∷◌}
use royak.Samples.{no_readers, web_world}
use royak.World.Manifest.{Resource, DeploymentSpec, ContainerSpec}
use royak.World.Yaml.{Yaml}

abbrev web_container : ContainerSpec
web_container = record {
  name = codes "web";
  image = codes "web:2";
  env = none;
  env_from = none;
  command = none;
  resources = none;
  volume_mounts = none;
  liveness_probe = none;
  readiness_probe = none;
  startup_probe = none;
}

abbrev web_spec : DeploymentSpec
web_spec = record {
  replicas = some 4;
  template = record { init_containers = none; containers = web_container ∷ []; volumes = none };
  strategy = none;
  volume_claim_templates = none;
}

abbrev one_spec : Readers
one_spec = record no_readers { deployment_spec = λ y. some web_spec }

abbrev web_manifest : Resource
web_manifest = record {
  kind = codes "Deployment";
  metadata = record { name = codes "web"; namespace = none };
  spec = some Yaml.null;
  values = none;
  string_data = none;
  rules = none;
  subjects = none;
  role_ref = none;
}

read_back : as_deployment one_spec web_manifest ≡ some web_spec
unfolding as_deployment text_eq contains
read_back = refl

apply_deployment-IsStored_example :
    IsStored web_world
      (apply_deployment one_spec web_world web_manifest).world
      (codes "web")
      (codes "web:2")
      4
apply_deployment-IsStored_example =
    apply_deployment-IsStored one_spec web_world web_manifest web_spec web_container [] read_back
      refl
