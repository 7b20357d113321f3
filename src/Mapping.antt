-- ===== src/Mapping.antt =====
-- mapping.py of the log shipper: an audit event of Coraza to the payload that the backend takes.
pub mod Json
pub mod Numbers
pub mod Patterns
pub mod Rules
pub mod Score
pub mod Event
pub mod Outcomes
pub mod Fields
pub mod Finite
pub mod Bounds
pub mod Suffix
pub mod Forged
pub mod Total
mod Witnesses
