-- ===== src/Policies.antt =====
-- policy_service.py, exclusion_service.py and custom_rule_service.py, with what may be rendered.
pub mod Syntax
pub mod Quoted
pub mod Rows
pub mod Requests
pub mod Service
pub mod Tables
pub mod Stored
pub mod Sound
pub mod Operations
pub mod References
pub mod Owned
pub mod Histories
mod Witnesses
pub mod Reads
pub mod Pages
