-- ===== src/Generate.antt =====
-- config_generator.py and config_renderer.py: the configuration of the proxy and the agent.
pub mod Checks
pub mod Contexts
pub mod Haproxy
pub mod Tuning
pub mod Generator
pub mod Scopes
pub mod ControlIds
pub mod Failures
pub mod Apps
pub mod Routes
pub mod Assigned
pub mod Numbered
pub mod Named
pub mod Unique
mod Samples
mod Witnesses
mod StoredWitnesses
