-- ===== src/Tests.antt =====
-- Runs of the model on concrete inputs.
pub mod Pending
pub mod Claims
pub mod Gate
pub mod Push
pub mod Limiter
pub mod Access
pub mod Bootstrap
pub mod Lane
pub mod Audit
pub mod Enforce
pub mod Write
pub mod Propose
pub mod Resolve
pub mod Documents
pub mod Search
