-- ===== src/Enforce.antt =====
-- src/data_olympus/enforce_policy.py and src/data_olympus/tools_enforce.py: the enforcement of
-- consultations.
pub mod Ledger
pub mod Policy
pub mod Support
pub mod Gate
pub mod Signals
pub mod Clearance
pub mod Capacity
pub mod Entries
pub mod Since
pub mod Places
pub mod Lasting
pub mod Hooks
pub mod Renewal
pub mod Naming
pub mod Pairs
pub mod Store
pub mod Restart
