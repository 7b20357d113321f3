-- ===== src/Apply.antt =====
-- src/backend/app/services/config_apply.py: applying a generated configuration.
pub mod Disk
pub mod Wait
pub mod Haproxy
pub mod Coraza
pub mod Release
pub mod Attempt
pub mod Rollback
pub mod Run
pub mod Restore
pub mod Ends
pub mod Bridged
pub mod Settled
pub mod Written
pub mod Reloads
pub mod Accepted
pub mod Status
pub mod Waits
pub mod Seed
pub mod Deployed
mod Witnesses
