-- ===== src/Handler.antt =====
-- src/dispatch/dag-transition-handler.ts, `handleDAGHopCompletion`, and the dispatch of hops in
-- src/dispatch/scheduler.ts: the end of a run and what follows it.
pub mod Completion
pub mod Frees
pub mod Poll
mod Examples
