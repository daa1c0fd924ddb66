-- ===== src/Dag/Normal.antt =====
-- A completion, failure or skip of a hop, from the event to the settled state.
pub mod Settled
pub mod Trace
pub mod Joined
