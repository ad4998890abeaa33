-- ===== src/Samples.antt =====
-- Small inputs for the tests and the witnesses.
pub mod Reports
