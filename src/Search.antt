-- ===== src/Search.antt =====
-- src/data_olympus/query_expansion.py and cooccurrence.py: what a query is broadened by.
pub mod Synonyms
pub mod Bounded
pub mod Groups
pub mod Distinct
