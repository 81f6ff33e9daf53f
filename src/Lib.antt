-- ===== src/Lib.antt =====
-- Royak keeps the desired state of a small cluster, and drives containers towards it. This library
-- models the parts of it that decide: what is stored, who may change it, who leads, where a request
-- goes, and what is deleted, merged, counted or replayed.
--
-- The parts and their files, with the paths in the repository:
--
-- World (src/reconcile.rs, src/net_security.rs): every stored resource and `DesiredWorld`, field by
-- field; `Json` is serde_json's value with the accessors that are called on it.
-- Apply (src/reconcile.rs, src/spec.rs): `DesiredWorld::apply`, one function for each kind of manifest,
-- in modules by what the kinds are about, and the match on the kind in Apply.Dispatch. The directories
-- that it creates and the containers that it restarts are effects, in their order; what it prints is
-- left out. World.Yaml and World.Manifest are the manifests.
-- Base64 (src/api.rs, src/reconcile.rs): `b64_bytes`, and `base64_decode`, which Apply uses on secrets.
-- Operators (src/reconcile.rs): `reconcile_operators`, which provisions the deployments of the custom
-- resources that Apply stored.
-- Rbac (src/reconcile.rs): `check_rbac`.
-- Lease (src/reconcile.rs): `try_acquire_lease` and `release_lease` on the lease file, one after the
-- other and interleaved.
-- StatefulSet (src/reconcile.rs): `next_statefulset_ordinal`.
-- Hpa (src/reconcile.rs): `hpa_decision` and the autoscaling pass of `reconcile_with_runtime`.
-- Deletion (src/reconcile.rs): `delete`, `delete_resource`, `deployments_owned_by`.
-- Quota (src/reconcile.rs): `check_quota`.
-- Events (src/reconcile.rs): `record_event`.
-- Peers (src/reconcile.rs): `merge_state`, the state changes of `send_heartbeats`, and
-- `check_node_health`.
-- Raft (src/raft_node.rs, src/consensus.rs): `NeuroStore`, which applies commands to the world by
-- `apply` of Apply, `delete_resource` of Deletion and its own changes.
-- Mesh (src/cluster_mesh.rs): `Router`, `service_target_port`, and in Mesh.Head the headers of a
-- handed-over request.
-- Ingress (src/api.rs): `find_backend` on the ingresses that Apply stored, and the table of routes that
-- `publish_ingress_snapshot` makes (here `published_routes`) and `snapshot_backend` reads; what Docker
-- says of the containers is an argument.
-- Frames (src/mesh_crypto.rs): `seal_frame` and `open_frame`; the cipher is a parameter.
-- Flows (src/flows.rs): `record`, here `record_flow`, and `snapshot`.
-- NeuralState (src/neural_state.rs): the key value store, and in NeuralState.Persist its file format.
-- Prelude: lists, texts, maps and numbers as the source uses them. Samples: concrete resources.
--
-- How the code is represented: numbers are naturals with their wrap-around written out where the
-- source can reach it; an f32 is its bit pattern, and arithmetic on it is a parameter; a text is
-- the list of its bytes; a HashMap is an association list, whose order stands for the order of
-- iteration, so two processes with the same map may differ in it (Apply.Storage.Order); an Instant
-- is a number of seconds; a panic is a result of its own. Files, sockets, containers, the clock,
-- the allocator where a count read from a file decides how much it is asked for, the parsers of
-- serde_json and serde_yaml with the readers that they derive, and openraft are parameters or
-- arguments. There is no recursion on fuel but for the digits of a decimal number, where the number
-- itself bounds it, for `trim_end_matches`, where each round shortens the text, and for the loops
-- over a range, where the length of the range does.
--
-- Not modelled: `parse_file` and `parse_yaml`, which cut a file for serde_yaml (src/spec.rs); the
-- reconcile loop around the autoscaler and the operators, pipelines and guards (src/reconcile.rs); the
-- rest of the HTTP API (src/api.rs), the container runtimes (src/docker.rs, src/runtime.rs,
-- src/microvm.rs), the neural network (src/brain.rs), the totals of the flow records (src/flows.rs),
-- the load balancer (src/servicelb.rs) and the command line (src/main.rs).
pub mod Prelude
pub mod World
mod Samples
pub mod Base64
pub mod Apply
pub mod Operators
pub mod Rbac
pub mod Lease
pub mod StatefulSet
pub mod Hpa
pub mod Deletion
pub mod Quota
pub mod Events
pub mod Peers
pub mod Raft
pub mod Mesh
pub mod Ingress
pub mod Frames
pub mod Flows
pub mod NeuralState
