-- ===== src/Scheduler.antt =====
-- src/dispatch/scheduler-helpers.ts: what a poll reads off the listing of the tasks. The clock is an
-- argument. The text of a reason is a constructor with what the text is made of.

mod Examples
pub mod Limits
pub mod Dispatch
pub mod Recovery
pub mod Circular
pub mod Poll
use aof.Prelude.{
  ℕ, suc, String, Bool, Option, none, some, List, [], ◌∷◌, ◌++◌, Dict, insert, length, keep, leb,
  if◌then◌else◌,
}
use aof.Tasks.Schema.{
  TaskStatus, backlog, ready, in_progress, blocked, review, done, cancelled, deadletter, same, Task,
  TaskLease,
}
use aof.Tasks.Promotion.{Eligibility, eligible, children_of, truthy, check_promotion_eligibility}

pub data ActionType : Type 0 where
  expire_lease assign requeue block to_deadletter alert stale_heartbeat sla_violation promote :
      ActionType

pub data Reason : Type 0 where
  lease_expired heartbeat_expired : ℕ → String → Reason
  sla_exceeded : ℕ → ℕ → Bool → Reason
  requirements_met circular_detected incomplete_subtasks no_routing_target : Reason
  routing_target : String → Reason
  tags_only : List String → Reason
  retry_attempt : ℕ → ℕ → Reason
  permanent_error : Reason
  retries_exceeded : ℕ → Reason
  dependencies_resolved : Reason

pub record SchedulerAction : Type 0 where
  pub type : ActionType
  pub task_id : String
  pub task_title : String
  pub agent : Option String
  pub reason : Reason
  pub from_status : Option TaskStatus
  pub to_status : Option TaskStatus

-- An action on a task, without the fields that only some actions have.
abbrev pub on_task : ActionType → Task → Reason → SchedulerAction
on_task type t reason = record {
  type = type;
  task_id = t.id;
  task_title = t.title;
  agent = none;
  reason = reason;
  from_status = none;
  to_status = none;
}

pub record TaskStats : Type 0 where
  pub total : ℕ
  pub backlog : ℕ
  pub ready : ℕ
  pub in_progress : ℕ
  pub blocked : ℕ
  pub review : ℕ
  pub done : ℕ
  pub cancelled : ℕ
  pub deadletter : ℕ

abbrev pub no_stats : ℕ → TaskStats
no_stats n = record {
  total = n;
  backlog = 0;
  ready = 0;
  in_progress = 0;
  blocked = 0;
  review = 0;
  done = 0;
  cancelled = 0;
  deadletter = 0;
}

abbrev pub count_status : TaskStatus → TaskStats → TaskStats
count_status TaskStatus.backlog s = record s { backlog = suc s.backlog }
count_status TaskStatus.ready s = record s { ready = suc s.ready }
count_status TaskStatus.in_progress s = record s { in_progress = suc s.in_progress }
count_status TaskStatus.blocked s = record s { blocked = suc s.blocked }
count_status TaskStatus.review s = record s { review = suc s.review }
count_status TaskStatus.done s = record s { done = suc s.done }
count_status TaskStatus.cancelled s = record s { cancelled = suc s.cancelled }
count_status TaskStatus.deadletter s = record s { deadletter = suc s.deadletter }

unfoldable pub count_each : List Task → TaskStats → TaskStats
count_each [] s = s
count_each (t ∷ ts) s = count_each ts (count_status t.status s)

unfoldable pub build_task_stats : List Task → TaskStats
unfolding count_each
build_task_stats all = count_each all (no_stats (length all))

abbrev pub add_to_parent : Task → Option String → Dict (List Task) → Dict (List Task)
add_to_parent t none m = m
add_to_parent t (some parent) m =
    if truthy (some parent) then insert parent (children_of m parent ++ t ∷ []) m else m

unfoldable pub add_children : List Task → Dict (List Task) → Dict (List Task)
add_children [] m = m
add_children (t ∷ ts) m = add_children ts (add_to_parent t t.parent_id m)

unfoldable pub build_children_map : List Task → Dict (List Task)
unfolding add_children
build_children_map all = add_children all []

-- `allTasks.filter(t => t.frontmatter.status === status)`
abbrev pub having_status : TaskStatus → List Task → List Task
having_status st all = keep (λ t. same t.status st) all

abbrev expiry_action : Task → TaskLease → SchedulerAction
expiry_action t lease =
    record (on_task expire_lease t (lease_expired lease.expires_at lease.agent)) {
      agent = some lease.agent;
      from_status = some t.status;
    }

abbrev expired_of : ℕ → Task → Option TaskLease → List SchedulerAction
expired_of now t none = []
expired_of now t (some lease) = if leb lease.expires_at now then expiry_action t lease ∷ [] else []

unfoldable pub expiry_actions : ℕ → List Task → List SchedulerAction
expiry_actions now [] = []
expiry_actions now (t ∷ ts) = expired_of now t t.lease ++ expiry_actions now ts

unfoldable pub check_expired_leases : ℕ → List Task → List SchedulerAction
unfolding expiry_actions
check_expired_leases now all =
    expiry_actions now
      (having_status TaskStatus.in_progress all ++ having_status TaskStatus.blocked all)

abbrev pub occupy : Task → Option String → Dict String → Dict String
occupy t none m = m
occupy t (some resource) m = if truthy (some resource) then insert resource t.id m else m

unfoldable pub occupy_each : List Task → Dict String → Dict String
occupy_each [] m = m
occupy_each (t ∷ ts) m = occupy_each ts (occupy t t.resource m)

unfoldable pub build_resource_occupancy_map : List Task → Dict String
unfolding occupy_each
build_resource_occupancy_map all = occupy_each (having_status TaskStatus.in_progress all) []

abbrev promote_action : Task → SchedulerAction
promote_action t = record (on_task promote t requirements_met) {
  from_status = some TaskStatus.backlog;
  to_status = some TaskStatus.ready;
}

abbrev promotion_of : Task → Eligibility → List SchedulerAction
promotion_of t eligible = promote_action t ∷ []
promotion_of t _ = []

unfoldable pub promotions : ℕ → List Task → Dict (List Task) → List Task → List SchedulerAction
unfolding check_promotion_eligibility
promotions now all children [] = []
promotions now all children (t ∷ ts) =
    promotion_of t (check_promotion_eligibility now t all children)
    ++ promotions now all children ts

unfoldable pub check_backlog_promotion : ℕ → List Task → Dict (List Task) → List SchedulerAction
unfolding promotions
check_backlog_promotion now all children =
    promotions now all children (having_status TaskStatus.backlog all)
