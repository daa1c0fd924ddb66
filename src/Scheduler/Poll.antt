-- ===== src/Scheduler/Poll.antt =====
-- src/dispatch/scheduler.ts: the actions that a poll plans, in their order. The stale heartbeats, the
-- violations of an SLA and the timeouts of hops come from other parts, as arguments.
pub mod Metrics
pub mod Others
pub mod Sound
pub mod Counted
use aof.Prelude.{
  ℕ, String, Bool, not, Option, none, some, List, [], ◌∷◌, ◌++◌, Dict, any_of, length,
  if◌then◌else◌,
}
use aof.Tasks.Schema.{TaskStatus, ready, in_progress, done, same, Task}
use aof.Tasks.Promotion.{find_task}
use aof.Throttle.{ThrottleState}
use aof.Scheduler.{
  stale_heartbeat, heartbeat_expired, SchedulerAction, on_task, TaskStats, having_status,
  build_task_stats, build_children_map, check_expired_leases, build_resource_occupancy_map,
  check_backlog_promotion,
}
use aof.Scheduler.Limits.{OrgTeam, Poll, or_default}
use aof.Scheduler.Dispatch.{build_dispatch_actions}
use aof.Scheduler.Recovery.{Fraction, default_max_dispatch_retries, check_blocked_task_recovery}
use aof.Scheduler.Circular.{circular_deps_of}

pub record SchedulerConfig : Type 0 where
  pub dry_run : Bool
  pub max_concurrent_dispatches : Option ℕ
  pub min_dispatch_interval_ms : Option ℕ
  pub max_dispatches_per_poll : Option ℕ
  pub max_dispatch_retries : Option ℕ

pub record Heartbeat : Type 0 where
  pub task_id : String
  pub agent_id : String
  pub expires_at : ℕ

-- What a poll reads besides the listing.
pub record Readings : Type 0 where
  pub now : ℕ
  pub throttle : ThrottleState
  pub teams : List OrgTeam
  pub draw : Task → Fraction
  pub stale_heartbeats : List Heartbeat
  pub sla_actions : List SchedulerAction
  pub hop_timeout_actions : List SchedulerAction

abbrev heartbeat_action : Heartbeat → Task → SchedulerAction
heartbeat_action h t =
    record (on_task stale_heartbeat t (heartbeat_expired h.expires_at h.agent_id)) {
      task_id = h.task_id;
      agent = some h.agent_id;
    }

-- Heartbeats of tasks that are not listed are passed over.
unfoldable pub heartbeat_actions : List Task → List Heartbeat → List SchedulerAction
unfolding find_task
heartbeat_actions all [] = []
heartbeat_actions all (h ∷ hs) =
    let rest = heartbeat_actions all hs in
    elim (find_task h.task_id all) [ none ↦ rest | some t ↦ heartbeat_action h t ∷ rest ]

-- The parents with a child that is not done.
unfoldable pub blocked_by_subtasks : Dict (List Task) → List String
blocked_by_subtasks [] = []
blocked_by_subtasks ((parent, children) ∷ m) =
    let rest = blocked_by_subtasks m in
    if any_of (λ c. not (same c.status done)) children then parent ∷ rest else rest

-- The search always returns.
unfoldable pub circular_deps : List Task → List String
unfolding circular_deps_of
circular_deps all = elim (circular_deps_of all) [ none ↦ [] | some m ↦ m.circular ]

-- What the poll hands to `buildDispatchActions`.
unfoldable pub dispatch_inputs : SchedulerConfig → Readings → List Task → Poll
unfolding build_task_stats blocked_by_subtasks build_children_map circular_deps
    build_resource_occupancy_map
dispatch_inputs config r all = record {
  now = r.now;
  throttle = r.throttle;
  teams = r.teams;
  dry_run = config.dry_run;
  max_concurrent_dispatches = config.max_concurrent_dispatches;
  min_dispatch_interval_ms = config.min_dispatch_interval_ms;
  max_dispatches_per_poll = config.max_dispatches_per_poll;
  all = all;
  current_in_progress = (build_task_stats all).in_progress;
  blocked_by_subtasks = blocked_by_subtasks (build_children_map all);
  circular_deps = circular_deps all;
  occupied_resources = build_resource_occupancy_map all;
  in_progress_tasks = having_status in_progress all;
}

unfoldable pub poll_actions : SchedulerConfig → Readings → List Task → List SchedulerAction
unfolding check_expired_leases heartbeat_actions check_backlog_promotion build_dispatch_actions
    dispatch_inputs check_blocked_task_recovery
poll_actions config r all =
    check_expired_leases r.now all
    ++ (heartbeat_actions all r.stale_heartbeats
        ++ (r.sla_actions
            ++ (r.hop_timeout_actions
                ++ (check_backlog_promotion r.now all (build_children_map all)
                    ++ (build_dispatch_actions (dispatch_inputs config r all)
                          (having_status ready all)
                        ++ check_blocked_task_recovery r.now r.draw
                            (or_default config.max_dispatch_retries default_max_dispatch_retries)
                            all (build_children_map all))))))
