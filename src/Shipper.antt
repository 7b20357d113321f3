-- ===== src/Shipper.antt =====
-- src/log-shipper/app/shipper.py: shipping the audit log to the backend's ingest endpoint.
pub mod Record
pub mod Lines
pub mod Skipped
pub mod Reader
pub mod State
pub mod Ship
pub mod Checkpoints
pub mod Delivery
pub mod Backoff
pub mod Available
pub mod Saved
pub mod Run
pub mod Synced
mod Witnesses
