-- ===== src/Scheduler/Examples.antt =====
-- Examples of a poll. The listing has `lint`, which is ready, `build`, in progress, `ship`, which is done, and
-- `flaky`, which is blocked since a failed dispatch at 0. The poll is at 70000, when the lease of `build` is
-- still active; the team "web" may run one task.
use aof.Prelude.{
  ◌+◌, ◌≤◌, String, true, false, none, some, List, [], ◌∷◌, ◌≡◌, ◌≢◌, refl, arith, lookup, insert,
  ◌⊎◌, contains, concat,
}
use mathlib.Core.List.{Memᴰ}
use aof.Tasks.Schema.{ready, in_progress, blocked, done, Task, TaskLease, Metadata, TaskRouting}
use aof.Tasks.Sample.{task, no_metadata, no_routing}
use aof.Tasks.Promotion.{find_task}
use aof.Tasks.Dependencies.{deps_of}
use aof.Tasks.Dependencies.Graph.{IsAcyclic}
use aof.Tasks.Lease.{is_lease_active}
use aof.Throttle.{team_interval, reset_throttle_state, check_throttle}
use aof.Scheduler.{
  SchedulerAction, requeue, retry_attempt, on_task, check_expired_leases, expiry_actions,
  check_backlog_promotion, promotions, add_children, build_resource_occupancy_map, occupy_each,
  build_children_map, build_task_stats, count_each,
}
use aof.Scheduler.Limits.{
  ends_poll, OrgTeam, TeamDispatch, Poll, team_config_map, target_agent, throttle_params,
  running_by_team, unresolved_deps,
}
use aof.Scheduler.Dispatch.{
  gate, assignment, build_dispatch_actions, plan_each, decide, after_throttle, carry_out,
  block_parents, initial_plan,
}
use aof.Scheduler.Dispatch.Teams.{team_count, team_assigns, build_dispatch_actions_team}
use aof.Scheduler.Dispatch.Capacity.{build_dispatch_actions_assigns}
use aof.Scheduler.Dispatch.Bounds.{assign_count}
use aof.Scheduler.Recovery.{
  Fraction, base_delay, compute_retry_backoff_ms, should_allow_spawn_failed_requeue, recovery_of,
  recover_each, check_blocked_task_recovery,
}
use aof.Scheduler.Recovery.Requeued.{IsRecovery, check_blocked_task_recovery_sound}
use aof.Scheduler.Circular.{
  Marks, cycle_from, add_all, detect_all, detect_circular_deps, start_at, detect_each,
  circular_deps_of, task_map,
}
use aof.Scheduler.Circular.Marked.{AllOnCycle}
use aof.Scheduler.Circular.Complete.{circular_deps_of_lem}
use aof.Scheduler.Poll.{
  SchedulerConfig, Readings, heartbeat_actions, blocked_by_subtasks, circular_deps, poll_actions,
  dispatch_inputs,
}
use aof.Scheduler.Poll.Sound.{IsDispatched, poll_actions_sound}
use aof.Scheduler.Poll.Counted.{poll_actions_bounds}

abbrev lint : Task
lint = task "lint" ready none ("ship" ∷ [])

abbrev build_lease : TaskLease
build_lease = record { agent = "swe-1"; acquired_at = 0; expires_at = 600000; renew_count = 0 }

abbrev build : Task
build = task "build" in_progress (some build_lease) []

abbrev ship : Task
ship = task "ship" done none []

abbrev flaky_metadata : Metadata
flaky_metadata = record no_metadata {
  block_reason = some "spawn_failed: timeout";
  last_blocked_at = some 0;
}

abbrev flaky : Task
flaky = record (task "flaky" blocked none []) { metadata = flaky_metadata }

abbrev listing : List Task
listing = lint ∷ build ∷ ship ∷ flaky ∷ []

abbrev config : SchedulerConfig
config = record {
  dry_run = false;
  max_concurrent_dispatches = some 2;
  min_dispatch_interval_ms = none;
  max_dispatches_per_poll = some 1;
  max_dispatch_retries = none;
}

abbrev half : Fraction
half = record { part = 1; unit = 2 }

abbrev readings : Readings
readings = record {
  now = 70000;
  throttle = reset_throttle_state;
  teams = [];
  draw = λ t. half;
  stale_heartbeats = [];
  sla_actions = [];
  hop_timeout_actions = [];
}

abbrev lint_assigned : SchedulerAction
lint_assigned = assignment lint "swe"

planned : Memᴰ lint_assigned (poll_actions config readings listing)
unfolding poll_actions check_expired_leases expiry_actions heartbeat_actions check_backlog_promotion
    promotions build_dispatch_actions dispatch_inputs plan_each decide gate after_throttle carry_out
    block_parents initial_plan check_throttle reset_throttle_state throttle_params lookup
    team_config_map target_agent build_task_stats count_each blocked_by_subtasks build_children_map
    add_children circular_deps circular_deps_of detect_all detect_circular_deps start_at detect_each
    task_map insert deps_of build_resource_occupancy_map occupy_each unresolved_deps find_task
    is_lease_active running_by_team
planned = Memᴰ.head refl

poll_actions_sound_example : IsDispatched 70000 listing lint_assigned
poll_actions_sound_example =
    poll_actions_sound config readings listing lint_assigned tt tt planned refl

poll_actions_bounds_example :
    (assign_count (poll_actions config readings listing) ≤ 1)
    × ((assign_count (poll_actions config readings listing) ≡ 0)
        ⊎ (1 + assign_count (poll_actions config readings listing) ≤ 2))
poll_actions_bounds_example = poll_actions_bounds config readings listing tt tt

circular_deps_of_lem_example :
    (m : Marks) × (circular_deps_of listing ≡ some m)
    × AllOnCycle (task_map listing []) m.circular
    × ((m.circular ≢ []) ⊎ IsAcyclic (task_map listing []))
circular_deps_of_lem_example = circular_deps_of_lem listing

abbrev retry_flaky : SchedulerAction
retry_flaky = on_task requeue flaky (retry_attempt 1 3)

retried : Memᴰ retry_flaky (check_blocked_task_recovery 70000 (λ t. half) 3 listing [])
unfolding check_blocked_task_recovery recover_each recovery_of should_allow_spawn_failed_requeue
    compute_retry_backoff_ms base_delay lookup contains
retried = Memᴰ.head refl

check_blocked_task_recovery_sound_example : IsRecovery 70000 3 listing [] retry_flaky
check_blocked_task_recovery_sound_example =
    check_blocked_task_recovery_sound 70000 (λ t. half) 3 listing [] retry_flaky (λ t. omega arith)
      retried

abbrev web_routing : TaskRouting
web_routing = record no_routing { team = some "web" }

abbrev page : String → Task
page id = record (task id ready none []) { routing = web_routing; resource = some "staging" }

abbrev pages : List Task
pages = page "home" ∷ page "about" ∷ []

abbrev web_limit : TeamDispatch
web_limit = record { max_concurrent = some 1; min_interval_ms = none }

abbrev web : OrgTeam
web = record { id = "web"; orchestrator = none; lead = some "web-lead"; dispatch = some web_limit }

abbrev web_poll : List OrgTeam → Poll
web_poll teams = record {
  now = 70000;
  throttle = reset_throttle_state;
  teams = teams;
  dry_run = false;
  max_concurrent_dispatches = some 3;
  min_dispatch_interval_ms = none;
  max_dispatches_per_poll = none;
  all = pages;
  current_in_progress = 0;
  blocked_by_subtasks = [];
  circular_deps = [];
  occupied_resources = [];
  in_progress_tasks = [];
}

web_limited : lookup "web" (team_config_map (web ∷ []) []) ≡ some web_limit
unfolding team_config_map lookup insert
web_limited = refl

build_dispatch_actions_team_example :
    (team_assigns "web" pages (build_dispatch_actions (web_poll (web ∷ [])) pages) ≡ 0)
    ⊎ (team_count "web" []
          + team_assigns "web" pages (build_dispatch_actions (web_poll (web ∷ [])) pages)
        ≤ 1)
build_dispatch_actions_team_example =
    build_dispatch_actions_team (web_poll (web ∷ [])) pages "web" web_limit 1 (refl, (refl, tt))
      refl web_limited refl

about_free : gate (web_poll []) (page "about") ≡ none
unfolding gate unresolved_deps is_lease_active lookup
about_free = refl

about_target : target_agent [] web_routing ≡ some "swe"
unfolding target_agent
about_target = refl

build_dispatch_actions_assigns_example :
    Memᴰ (assignment (page "about") "swe") (build_dispatch_actions (web_poll []) pages)
build_dispatch_actions_assigns_example =
    build_dispatch_actions_assigns (web_poll []) pages (page "about") "swe" refl refl (omega arith)
      (omega arith) (Memᴰ.tail (Memᴰ.head refl)) about_free about_target

-- Two tasks with one resource are assigned in one poll.
both_assigned : assign_count (build_dispatch_actions (web_poll []) pages) ≡ 2
unfolding build_dispatch_actions plan_each decide gate after_throttle carry_out block_parents
    initial_plan check_throttle reset_throttle_state throttle_params lookup team_config_map
    target_agent unresolved_deps is_lease_active running_by_team insert assign_count
both_assigned = refl

-- Of the cycles a, b and a, c, b only the first is marked: `c` is on the second one.
half_marked :
    circular_deps_of (
      task "a" ready none ("b" ∷ "c" ∷ [])
      ∷ task "b" ready none ("a" ∷ [])
      ∷ task "c" ready none ("b" ∷ [])
      ∷ [])
    ≡ some (record { visited = "c" ∷ "b" ∷ "a" ∷ []; circular = "b" ∷ "a" ∷ [] })
unfolding circular_deps_of detect_all detect_circular_deps start_at detect_each task_map insert
    deps_of lookup cycle_from add_all
half_marked = refl

-- A team named "global" that waits for its interval ends the poll for every other team.
global_ends_poll : ends_poll (some "global") team_interval ≡ true
unfolding ends_poll concat contains
global_ends_poll = refl
