-- ===== src/Workflow.antt =====
-- src/schemas/workflow-dag.ts
pub mod Schema
pub mod Complexity
pub mod Initial
pub mod Validate
pub mod Acyclic
pub mod Sample
mod Examples
