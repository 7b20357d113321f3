-- ===== src/VHosts.antt =====
-- src/backend/app/services/vhost_service.py: virtual hosts, their backends and policy bindings.
pub mod Backends
pub mod Rows
pub mod Requests
pub mod Certificates
pub mod Service
pub mod Normal
pub mod Tables
pub mod Mirror
pub mod Kept
pub mod Operations
pub mod References
mod Witnesses
