-- ===== src/Tasks/Calls.antt =====
-- src/store and src/dispatch/failure-tracker.ts: the operations on one task as calls that run one
-- after the other on a store. The periodic `expireLeases` is not among them.
pub mod Changes
pub mod Each
pub mod Safe
pub mod Errors
use aof.Prelude.{ℕ, String, none, some, Option, List, [], ◌∷◌}
use aof.Tasks.Schema.{TaskStatus, Metadata, Task}
use aof.Tasks.Store.{Store, Answer, Action, Answer, return, throw, StoreError, transition_task}
use aof.Tasks.Lifecycle.{block_task, unblock_task, cancel_task}
use aof.Tasks.Lease.{acquire_lease, renew_lease, release_lease}
use aof.Tasks.Failures.{track_dispatch_failure, transition_to_deadletter, reset_dispatch_failures}
use aof.Tasks.Update.{UpdatePatch, update_task}
use aof.Tasks.Dependencies.{add_dependency, remove_dependency}

pub data Operation : Type 0 where
  move : TaskStatus → (Metadata → Metadata) → Operation
  block : String → Operation
  unblock : Operation
  cancel : Option String → Operation
  acquire : (ttl : ℕ) (agent : String) → Operation
  renew : (ttl max_renewals : ℕ) (agent : String) → Operation
  release : (agent : String) → Operation
  track_failure : (reason : String) → Operation
  deadletter_task : (last_reason : String) → Operation
  reset : Operation
  depend : (blocker : String) → Operation
  undepend : (blocker : String) → Operation
  revise : (hash : String → String) → UpdatePatch → Operation

pub record Call : Type 0 where
  pub now : ℕ
  pub task_id : String
  pub operation : Operation

-- The store that an operation leaves, whether it returns or throws.
unfoldable pub perform : ℕ → String → Operation → Store → Store
perform now id (move to patch) s = (transition_task now id to patch s).1
perform now id (block reason) s = (block_task now id reason s).1
perform now id unblock s = (unblock_task now id s).1
perform now id (cancel reason) s = (cancel_task now id reason s).1
perform now id (acquire ttl agent) s = (acquire_lease now ttl id agent s).1
perform now id (renew ttl max agent) s = (renew_lease now ttl max id agent s).1
perform now id (release agent) s = (release_lease now id agent s).1
perform now id (track_failure reason) s = (track_dispatch_failure now id reason s).1
perform now id (deadletter_task reason) s = (transition_to_deadletter now id reason s).1
perform now id reset s = (reset_dispatch_failures now id s).1
perform now id (depend blocker) s = (add_dependency now id blocker s).1
perform now id (undepend blocker) s = (remove_dependency now id blocker s).1
perform now id (revise hash p) s = (update_task hash now id p s).1

abbrev pub thrown : {A : Type 0} → Answer A → Option StoreError
thrown (return a) = none
thrown (throw e) = some e

-- The error that an operation throws.
unfoldable pub perform_error : ℕ → String → Operation → Store → Option StoreError
perform_error now id (move to patch) s = thrown (transition_task now id to patch s).0
perform_error now id (block reason) s = thrown (block_task now id reason s).0
perform_error now id unblock s = thrown (unblock_task now id s).0
perform_error now id (cancel reason) s = thrown (cancel_task now id reason s).0
perform_error now id (acquire ttl agent) s = thrown (acquire_lease now ttl id agent s).0
perform_error now id (renew ttl max agent) s = thrown (renew_lease now ttl max id agent s).0
perform_error now id (release agent) s = thrown (release_lease now id agent s).0
perform_error now id (track_failure reason) s = thrown (track_dispatch_failure now id reason s).0
perform_error now id (deadletter_task reason) s =
    thrown (transition_to_deadletter now id reason s).0
perform_error now id reset s = thrown (reset_dispatch_failures now id s).0
perform_error now id (depend blocker) s = thrown (add_dependency now id blocker s).0
perform_error now id (undepend blocker) s = thrown (remove_dependency now id blocker s).0
perform_error now id (revise hash p) s = thrown (update_task hash now id p s).0

unfoldable pub run_calls : List Call → Store → Store
unfolding perform
run_calls [] s = s
run_calls (c ∷ cs) s = run_calls cs (perform c.now c.task_id c.operation s)
