-- ===== src/Probe.antt =====
-- src/backend/app/services/coraza_probe.py: the integers of the agent's protocol.
pub mod Varint
pub mod Codec
mod Witnesses
