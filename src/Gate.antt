-- ===== src/Gate.antt =====
-- src/data_olympus/write_gate.py: the gates before a commit.
pub mod Cas
pub mod Stale
pub mod Fronts
pub mod Documents
pub mod Bundle
pub mod Unique
pub mod Owners
pub mod Batch
pub mod References
