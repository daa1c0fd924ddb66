-- ===== src/Dag/Rejected.antt =====
-- A rejection of a hop: src/dispatch/dag-evaluator.ts, step 1.
pub mod Log
pub mod Origin
pub mod Breaker
pub mod Reported
