-- ===== src/Lane.antt =====
-- src/data_olympus/format/validate.py (validity and freshness) and
-- src/data_olympus/governed_lane.py (which writes are demoted to the pending queue). Dates are
-- normalized ISO texts, compared as texts.
pub mod Validity
pub mod Governed
pub mod Force
pub mod FailClosed
