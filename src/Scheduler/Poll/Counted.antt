-- ===== src/Scheduler/Poll/Counted.antt =====
-- How many assignments a poll plans, next to the tasks that the listing has in progress.
use aof.Prelude.{
  ◌+◌, ◌≤◌, List, [], ◌∷◌, ◌++◌, length, ◌≡◌, refl, ◌∙◌, arith, if◌then◌else◌, inl, inr, ◌⊎◌,
}
use aof.Tasks.Schema.{TaskStatus, backlog, ready, in_progress, blocked, same, Task}
use aof.Scheduler.{
  SchedulerAction, TaskStats, no_stats, having_status, count_status, count_each, build_task_stats,
  build_children_map, check_expired_leases, check_backlog_promotion,
}
use aof.Scheduler.Limits.{or_default}
use aof.Scheduler.Dispatch.{build_dispatch_actions}
use aof.Scheduler.Dispatch.Bounds.{assign_count, assign_count-append, build_dispatch_actions_bounds}
use aof.Scheduler.Recovery.{default_max_dispatch_retries, check_blocked_task_recovery}
use aof.Scheduler.Poll.{SchedulerConfig, Readings, heartbeat_actions, dispatch_inputs, poll_actions}
use aof.Scheduler.Poll.Others.{
  AssignsNone, expiry-AssignsNone, heartbeat-AssignsNone, promotions-AssignsNone,
  recover-AssignsNone,
}

count_none : (xs : List SchedulerAction) → AssignsNone xs → assign_count xs ≡ 0
unfolding assign_count
count_none [] h = refl
count_none (a ∷ xs) (h, hs) = rw (assign_count, h) (count_none xs hs)

count_later :
    (xs ys : List SchedulerAction) → AssignsNone xs → assign_count (xs ++ ys) ≡ assign_count ys
count_later xs ys h = assign_count-append xs ys ∙ rw (count_none xs h) (omega arith)

count_earlier :
    (xs ys : List SchedulerAction) → AssignsNone ys → assign_count (xs ++ ys) ≡ assign_count xs
count_earlier xs ys h = assign_count-append xs ys ∙ rw (count_none ys h) (omega arith)

count_each_in_progress :
    (ts : List Task) (s : TaskStats)
    → (count_each ts s).in_progress ≡ s.in_progress + length (having_status in_progress ts)
unfolding count_each
count_each_in_progress [] s = omega arith
count_each_in_progress (t ∷ ts) s =
    count_each_in_progress ts (count_status t.status s) ∙ one t.status
  where
    one :
        (st : TaskStatus)
        → (count_status st s).in_progress + length (having_status in_progress ts)
          ≡ s.in_progress
            + length (
                let rest = having_status in_progress ts in
                if same st in_progress then t ∷ rest else rest)
    one TaskStatus.backlog = omega arith
    one TaskStatus.ready = omega arith
    one TaskStatus.in_progress = omega arith
    one TaskStatus.blocked = omega arith
    one TaskStatus.review = omega arith
    one TaskStatus.done = omega arith
    one TaskStatus.cancelled = omega arith
    one TaskStatus.deadletter = omega arith

poll_assigns :
    (config : SchedulerConfig) (r : Readings) (all : List Task)
    → AssignsNone r.sla_actions
    → AssignsNone r.hop_timeout_actions
    → assign_count (poll_actions config r all)
      ≡ assign_count
          (build_dispatch_actions (dispatch_inputs config r all) (having_status ready all))
unfolding poll_actions check_expired_leases check_backlog_promotion check_blocked_task_recovery
poll_assigns config r all sla timeouts =
    let children = build_children_map all in
    let retries = or_default config.max_dispatch_retries default_max_dispatch_retries in
    count_later (check_expired_leases r.now all) _
      (expiry-AssignsNone r.now (having_status in_progress all ++ having_status blocked all))
    ∙ (count_later (heartbeat_actions all r.stale_heartbeats) _
          (heartbeat-AssignsNone all r.stale_heartbeats)
        ∙ (count_later r.sla_actions _ sla
            ∙ (count_later r.hop_timeout_actions _ timeouts
                ∙ (count_later (check_backlog_promotion r.now all children) _
                      (promotions-AssignsNone r.now all children (having_status backlog all))
                    ∙ count_earlier _
                        (check_blocked_task_recovery r.now r.draw retries all children)
                        (recover-AssignsNone r.now r.draw retries all children
                          (having_status blocked all))))))

-- If neither the actions on an SLA nor those on timeouts of hops assign a task: a poll plans no more assignments than
-- its limit; and if it plans one, these and the listed tasks in progress are together within the limit on
-- concurrent dispatches.
pub poll_actions_bounds :
    (config : SchedulerConfig) (r : Readings) (all : List Task)
    → AssignsNone r.sla_actions
    → AssignsNone r.hop_timeout_actions
    → (assign_count (poll_actions config r all) ≤ or_default config.max_dispatches_per_poll 10)
      × ((assign_count (poll_actions config r all) ≡ 0)
          ⊎ (length (having_status in_progress all) + assign_count (poll_actions config r all)
              ≤ or_default config.max_concurrent_dispatches 3))
unfolding dispatch_inputs build_task_stats
poll_actions_bounds config r all sla timeouts =
    let (polls, room) =
      build_dispatch_actions_bounds (dispatch_inputs config r all) (having_status ready all) in
    let busy = count_each_in_progress all (no_stats (length all)) in
    rw (poll_assigns config r all sla timeouts)
      (polls, elim room [ inl none_planned ↦ inl none_planned | inr within ↦ inr (omega arith) ])
