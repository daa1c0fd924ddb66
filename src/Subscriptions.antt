-- ===== src/Subscriptions.antt =====
-- src/schemas/subscription.ts, src/store/subscription-store.ts and src/dispatch/callback-delivery.ts:
-- who is told of a task's progress, and how often a delivery is tried.
pub mod Schema
pub mod Store
pub mod Delivery
pub mod Rounds
pub mod Calls
pub mod Steps
pub mod Budget
pub mod Settled
pub mod Tried
pub mod Retried
mod Examples
