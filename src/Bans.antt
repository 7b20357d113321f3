-- ===== src/Bans.antt =====
-- src/backend/app/services/ban_list_service.py: the auto-ban tables over HAProxy's Runtime API.
pub mod Commands
pub mod Table
pub mod Service
pub mod Counted
pub mod Lifted
mod Witnesses
