-- ===== src/Apply.antt =====
-- src/reconcile.rs, `DesiredWorld::apply`: what one manifest makes of the world. Each kind has a
-- function in a child module. What happens outside the world is a list of effects, in their order;
-- what is printed to the terminal is left out.
pub mod Base
pub mod Storage
pub mod Settings
pub mod Workloads
pub mod Runs
pub mod Network
pub mod Limits
pub mod Access
pub mod Extensions
pub mod Delivery
pub mod Dispatch
mod Tests
