-- ===== src/Scheduler/Recovery.antt =====
-- src/dispatch/scheduler-helpers.ts: the retry of blocked tasks. A random number is a fraction, which
-- the caller draws for each task, and the delays are exact.
pub mod Backoff
pub mod Requeued
use aof.Prelude.{
  ℕ, zero, suc, ◌+◌, ◌*◌, ◌/◌, String, Bool, true, false, not, ◌&&◌, ◌||◌, Option, none, some, List,
  [], ◌∷◌, ◌++◌, Dict, every, leb, ltb, if◌then◌else◌, ◌==◌, contains,
}
use aof.Tasks.Schema.{TaskStatus, blocked, done, same, Task}
use aof.Tasks.Promotion.{find_task, children_of}
use aof.Tasks.Failures.{or_zero}
use aof.Scheduler.{
  requeue, to_deadletter, Reason, retry_attempt, permanent_error, retries_exceeded,
  dependencies_resolved, SchedulerAction, on_task, having_status,
}

-- A number from 0 up to but not 1: `part / unit`.
pub record Fraction : Type 0 where
  pub part : ℕ
  pub unit : ℕ

abbrev pub default_max_dispatch_retries : ℕ
default_max_dispatch_retries = 3

-- `Math.pow(3, retryCount)`
abbrev pub pow3 : ℕ → ℕ
pow3 zero = 1
pow3 (suc n) = 3 * pow3 n

-- `Math.min(baseMs * Math.pow(3, retryCount), ceilingMs)`, with the defaults.
unfoldable pub base_delay : ℕ → ℕ
base_delay n = if leb (60000 * pow3 n) 900000 then 60000 * pow3 n else 900000

-- With a quarter of jitter: the delay, times (3 unit + 2 part) / (4 unit), rounded to the nearest number.
unfoldable pub compute_retry_backoff_ms : Fraction → ℕ → ℕ
unfolding base_delay
compute_retry_backoff_ms r n =
    (2 * base_delay n * (3 * r.unit + 2 * r.part) + 4 * r.unit) / (8 * r.unit)

pub data RequeueGuard : Type 0 where
  allow should_deadletter : Reason → RequeueGuard
  backoff_not_elapsed : RequeueGuard

abbrev is_permanent : Option String → Bool
is_permanent none = false
is_permanent (some e) = e == "permanent"

-- A time in the future counts as too young, too.
abbrev too_young : ℕ → ℕ → Option ℕ → Bool
too_young now backoff none = false
too_young now backoff (some at) = ltb now (at + backoff)

unfoldable pub should_allow_spawn_failed_requeue : ℕ → Fraction → ℕ → Task → RequeueGuard
unfolding compute_retry_backoff_ms
should_allow_spawn_failed_requeue now r max_retries t =
    let count = or_zero t.metadata.retry_count in
    if is_permanent t.metadata.error_class
    then should_deadletter permanent_error
    else if leb max_retries count
    then should_deadletter (retries_exceeded max_retries)
    else if too_young now (compute_retry_backoff_ms r count) t.metadata.last_blocked_at
    then backoff_not_elapsed
    else allow (retry_attempt (count + 1) max_retries)

-- `blockReason?.includes("spawn_failed") ?? false`
abbrev pub is_dispatch_failure : Option String → Bool
is_dispatch_failure none = false
is_dispatch_failure (some reason) = contains reason "spawn_failed"

abbrev pub guarded : Task → RequeueGuard → List SchedulerAction
guarded t (allow reason) = on_task requeue t reason ∷ []
guarded t (should_deadletter reason) = on_task to_deadletter t reason ∷ []
guarded t backoff_not_elapsed = []

abbrev pub has_gate : List String → List Task → Bool
has_gate [] [] = false
has_gate _ _ = true

-- The dependencies and the subtasks are done.
unfoldable pub all_resolved : List Task → Task → List Task → Bool
unfolding find_task
all_resolved all t children =
    every (λ d. elim (find_task d all) [ none ↦ false | some u ↦ same u.status done ]) t.depends_on
    && every (λ c. same c.status done) children

unfoldable pub recovery_of :
    ℕ → Fraction → ℕ → List Task → Dict (List Task) → Task → List SchedulerAction
unfolding should_allow_spawn_failed_requeue all_resolved
recovery_of now r max_retries all children t =
    if is_dispatch_failure t.metadata.block_reason
    then guarded t (should_allow_spawn_failed_requeue now r max_retries t)
    else if has_gate t.depends_on (children_of children t.id)
        && all_resolved all t (children_of children t.id)
    then on_task requeue t dependencies_resolved ∷ []
    else []

unfoldable pub recover_each :
    ℕ → (Task → Fraction) → ℕ → List Task → Dict (List Task) → List Task → List SchedulerAction
unfolding recovery_of
recover_each now draw max_retries all children [] = []
recover_each now draw max_retries all children (t ∷ ts) =
    recovery_of now (draw t) max_retries all children t
    ++ recover_each now draw max_retries all children ts

unfoldable pub check_blocked_task_recovery :
    ℕ → (Task → Fraction) → ℕ → List Task → Dict (List Task) → List SchedulerAction
unfolding recover_each
check_blocked_task_recovery now draw max_retries all children =
    recover_each now draw max_retries all children (having_status blocked all)
