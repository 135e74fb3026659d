-- ===== src/Access.antt =====
-- src/data_olympus/principals.py and auth.py: who a caller is, what it may do, and what paths it may
-- write.
pub mod Registry
pub mod Ownership
pub mod Paths
pub mod Canonical
