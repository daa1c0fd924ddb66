-- ===== src/Workflow/Acyclic.antt =====
-- src/schemas/workflow-dag.ts, `validateDAG`: a definition that is accepted has no cycle.
pub mod Counts
pub mod Kahn
pub mod Order
pub mod Build
pub mod Edges
pub mod Cycles
pub mod Cyclic
pub mod Visits
pub mod Accepted
