-- ===== src/Escalation.antt =====
-- src/dispatch/duration-parser.ts, src/dispatch/escalation.ts and the dispatch of a hop in
-- src/dispatch/dag-transition-handler.ts: hops that take too long.
pub mod Duration
pub mod Timeouts
pub mod Dispatch
pub mod Once
pub mod Retry
mod Examples
