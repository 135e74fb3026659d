-- ===== src/Pending.antt =====
-- src/data_olympus/pending.py: the queue of proposals that wait for an operator.
pub mod Records
pub mod Disk
pub mod Lock
pub mod Queue
pub mod Claim
pub mod Ensures
pub mod Sweep
pub mod Reconcile
pub mod Held
pub mod Fencing
pub mod Survival
pub mod Steady
pub mod Handling
pub mod Refusal
pub mod Evidence
pub mod Returns
pub mod Recovered
pub mod System
