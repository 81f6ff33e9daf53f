-- ===== src/World.antt =====
-- The data of the program: src/reconcile.rs's stored resources and `DesiredWorld`, and the JSON
-- values that they are read from.
pub mod Json
pub mod Workloads
pub mod Services
pub mod Cluster
pub mod State
pub mod Yaml
pub mod Manifest
