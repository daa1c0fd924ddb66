-- ===== src/Tasks/Failures.antt =====
-- src/dispatch/failure-tracker.ts. The alert and the event of `transitionToDeadletter` go to logs.
pub mod Budget
use aof.Prelude.{
  ℕ, ◌+◌, String, Bool, true, false, ◌||◌, Option, none, some, if◌then◌else◌, ◌==◌, leb,
}
use aof.Tasks.Schema.{deadletter, Task, Metadata}
use aof.Tasks.Store.{Action, ◌>>=◌, get_task, write_task, transition_task}

abbrev pub max_dispatch_failures : ℕ
max_dispatch_failures = 3

-- `metadata.dispatchFailures ?? 0`
abbrev pub or_zero : Option ℕ → ℕ
or_zero none = 0
or_zero (some n) = n

abbrev pub failures : Task → ℕ
failures t = or_zero t.metadata.dispatch_failures

unfoldable pub with_failure : ℕ → String → Task → Task
with_failure now reason t =
    let m = t.metadata in
    record t {
      updated_at = now;
      metadata = record m {
        dispatch_failures = some (or_zero m.dispatch_failures + 1);
        last_dispatch_failure_reason = some reason;
        last_dispatch_failure_at = some now;
      };
    }

unfoldable pub track_dispatch_failure : ℕ → String → String → Action (Unit {0})
unfolding get_task write_task with_failure
track_dispatch_failure now id reason = do t ← get_task id; write_task (with_failure now reason t)

abbrev is_class : String → Option String → Bool
is_class c none = false
is_class c (some e) = e == c

-- The error classes that no retry can help.
abbrev pub is_hopeless : Option String → Bool
is_hopeless e = is_class "permanent" e || is_class "model_silent_failure" e

unfoldable pub should_transition_to_deadletter : Task → Bool
should_transition_to_deadletter t =
    if is_hopeless t.metadata.error_class then true else leb max_dispatch_failures (failures t)

abbrev pub deadletter_cause : Option String → String
deadletter_cause e =
    if is_class "permanent" e
    then "permanent_error"
    else if is_class "model_silent_failure" e
    then "model_silent_failure"
    else "max_dispatch_failures"

abbrev class_or_unknown : Option String → String
class_or_unknown none = "unknown"
class_or_unknown (some e) = e

-- The `metadataPatch`, from the task as it was read.
unfoldable pub deadletter_patch : ℕ → String → Task → Metadata → Metadata
deadletter_patch now last_reason t m = record m {
  deadletter_reason = some (deadletter_cause t.metadata.error_class);
  deadletter_last_error = some last_reason;
  deadletter_error_class = some (class_or_unknown t.metadata.error_class);
  deadletter_at = some now;
  deadletter_failure_count = some (failures t);
}

unfoldable pub transition_to_deadletter : ℕ → String → String → Action Task
unfolding get_task deadletter_patch transition_task
transition_to_deadletter now id last_reason = do
  t ← get_task id
  transition_task now id deadletter (deadletter_patch now last_reason t)

unfoldable pub reset_failures : ℕ → Task → Task
reset_failures now t =
    let m = t.metadata in
    record t {
      updated_at = now;
      metadata = record m {
        dispatch_failures = some 0;
        retry_count = none;
        last_dispatch_failure_reason = none;
        last_dispatch_failure_at = none;
        error_class = none;
      };
    }

unfoldable pub reset_dispatch_failures : ℕ → String → Action (Unit {0})
unfolding get_task write_task reset_failures
reset_dispatch_failures now id = do t ← get_task id; write_task (reset_failures now t)
