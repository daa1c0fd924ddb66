-- ===== src/Scheduler/Dispatch.antt =====
-- src/dispatch/task-dispatcher.ts: the actions on the ready tasks and on their parents.
pub mod Steps
pub mod Bounds
pub mod Gates
pub mod Capacity
pub mod Teams
use aof.Prelude.{
  ℕ, ◌+◌, suc, String, Bool, true, false, not, ◌&&◌, ◌||◌, Option, none, some, List, [], ◌∷◌, ◌++◌,
  Dict, lookup, insert, find, every, includes, ltb, if◌then◌else◌, ◌==◌, concat, contains,
}
use aof.Tasks.Schema.{TaskStatus, in_progress, blocked, done, same, one_of, Task, TaskRouting}
use aof.Tasks.Promotion.{find_task, truthy}
use aof.Tasks.Lease.{is_lease_active}
use aof.Throttle.{
  ThrottleState, ThrottleCheckParams, ThrottleCheckResult, allowed, global_concurrency,
  team_concurrency, global_interval, team_interval, poll_limit, named, check_throttle,
}
use aof.Scheduler.{
  ActionType, assign, block, alert, Reason, circular_detected, incomplete_subtasks,
  no_routing_target, routing_target, tags_only, SchedulerAction, on_task,
}
use aof.Scheduler.Limits.{
  Poll, Plan, unresolved_deps, no_texts, is_occupied, throttle_params, ends_poll, target_agent,
  running_by_team, count_in,
}

-- What the loop does with a task: nothing, an alert or a block, an assignment to an agent; or it ends.
pub data Decision : Type 0 where
  pass halt : Decision
  push : SchedulerAction → Decision
  dispatch_to : String → Decision

-- The tests before the throttle, in their order; `none` goes on.
unfoldable pub gate : Poll → Task → Option Decision
unfolding unresolved_deps is_lease_active
gate p t =
    if includes t.id p.blocked_by_subtasks
    then some pass
    else if includes t.id p.circular_deps
    then some (push (record (on_task block t circular_detected) { from_status = some t.status }))
    else if not (no_texts (unresolved_deps p.all t.depends_on))
    then some pass
    else if is_lease_active p.now t.lease
    then some pass
    else if is_occupied p.occupied_resources t.resource
    then some pass
    else none

abbrev pub unrouted : Task → List String → SchedulerAction
unrouted t [] = on_task alert t no_routing_target
unrouted t (tag ∷ tags) = on_task alert t (tags_only (tag ∷ tags))

abbrev pub route : Task → Option String → Decision
route t none = push (unrouted t t.routing.tags)
route t (some agent) = dispatch_to agent

unfoldable pub after_throttle : Poll → Task → ThrottleCheckResult → Decision
unfolding ends_poll target_agent
after_throttle p t allowed = route t (target_agent p.teams t.routing)
after_throttle p t refusal = if ends_poll (named t.routing.team) refusal then halt else pass

unfoldable pub decide : Poll → Plan → Task → Decision
unfolding gate throttle_params after_throttle
decide p plan t = elim (gate p t) [
  | some d ↦ d
  | none ↦ after_throttle p t (check_throttle p.now p.throttle (throttle_params p plan t))
]

abbrev pub assignment : Task → String → SchedulerAction
assignment t agent = record (on_task assign t (routing_target agent)) { agent = some agent }

abbrev pub reserve : Poll → Task → Dict ℕ → Dict ℕ
reserve p t m = if p.dry_run then m else count_in (named t.routing.team) m

unfoldable pub carry_out : Poll → Task → Decision → Plan → Plan
carry_out p t pass plan = plan
carry_out p t halt plan = plan
carry_out p t (push a) plan = record plan { actions = plan.actions ++ a ∷ [] }
carry_out p t (dispatch_to agent) plan = record {
  actions = plan.actions ++ assignment t agent ∷ [];
  pending_dispatches = suc plan.pending_dispatches;
  dispatches_this_poll = suc plan.dispatches_this_poll;
  in_progress_by_team = reserve p t plan.in_progress_by_team;
}

abbrev pub is_halt : Decision → Bool
is_halt halt = true
is_halt _ = false

unfoldable pub plan_each : Poll → List Task → Plan → Plan
unfolding decide carry_out
plan_each p [] plan = plan
plan_each p (t ∷ ts) plan =
    let rest = plan_each p ts (carry_out p t (decide p plan t) plan) in
    if is_halt (decide p plan t) then plan else rest

abbrev pub blocks_parent : Poll → Task → Bool
blocks_parent p t =
    includes t.id p.blocked_by_subtasks && not (one_of t.status (blocked ∷ done ∷ []))

-- The parents with incomplete subtasks.
unfoldable pub block_parents : Poll → List Task → List SchedulerAction
block_parents p [] = []
block_parents p (t ∷ ts) =
    let rest = block_parents p ts in
    if blocks_parent p t
    then record (on_task block t incomplete_subtasks) { from_status = some t.status } ∷ rest
    else rest

unfoldable pub initial_plan : Poll → Plan
unfolding running_by_team
initial_plan p = record {
  actions = [];
  pending_dispatches = 0;
  dispatches_this_poll = 0;
  in_progress_by_team = running_by_team p.in_progress_tasks [];
}

unfoldable pub build_dispatch_actions : Poll → List Task → List SchedulerAction
unfolding plan_each block_parents initial_plan
build_dispatch_actions p ready =
    (plan_each p ready (initial_plan p)).actions ++ block_parents p p.all
