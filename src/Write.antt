-- ===== src/Write.antt =====
-- src/data_olympus/tools_write.py: the write of a document.
pub mod Answers
pub mod Gates
pub mod Commit
pub mod Outcomes
pub mod Passed
pub mod Leftovers
pub mod Request
pub mod Propose
pub mod Audited
pub mod Authorised
pub mod Decision
pub mod Resolve
pub mod Claimed
pub mod Landed
pub mod Once
pub mod Kept
pub mod Handback
