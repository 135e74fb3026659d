-- ===== src/Audit.antt =====
-- src/data_olympus/audit_log.py: the append-only log with its hash chain.
pub mod Log
pub mod Segments
pub mod Rotated
pub mod Chain
pub mod Append
pub mod Tamper
pub mod Query
pub mod Recent
pub mod Limit
