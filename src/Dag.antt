-- ===== src/Dag.antt =====
-- src/dispatch/dag-condition-evaluator.ts and src/dispatch/dag-evaluator.ts
pub mod Condition
pub mod Types
pub mod Status
pub mod Cascade
pub mod Conditions
pub mod Ready
pub mod Completion
pub mod Rejection
pub mod Evaluate
pub mod Log
pub mod Run
pub mod Normal
pub mod Verdict
pub mod Rejected
pub mod Blocked
pub mod Sample
mod Examples
