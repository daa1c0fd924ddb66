-- ===== src/Tasks.antt =====
-- src/schemas/task.ts and src/store: tasks, their statuses, and the operations of the task store.
pub mod Schema
pub mod Store
pub mod Lifecycle
pub mod Lease
pub mod Failures
pub mod Dependencies
pub mod Update
pub mod Calls
pub mod Cascade
pub mod Promotion
pub mod Sample
mod Examples
mod CascadeExamples
