-- ===== src/Dag/Run.antt =====
-- The moves of src/dispatch/dag-evaluator.ts after the event itself, as a step relation on the
-- working copy: a hop leaves "pending" for "skipped" or "ready", and never by another way.
pub mod Steps
pub mod Frame
pub mod Log
pub mod Sound
pub mod Joins
pub mod Total
