-- ===== src/Scheduler/Limits.antt =====
-- src/dispatch/task-dispatcher.ts: the settings of a poll, the state of its loop, the limits that it
-- hands to the throttle, and the target of a task. The teams of the organisation chart
-- are an argument, none if the chart does not load. The numbers and units at the end of a throttle's
-- reason are left out: they do not hold what the loop looks for.
use aof.Prelude.{
  ℕ, suc, String, Bool, true, false, ◌&&◌, Option, none, some, List, [], ◌∷◌, Dict, lookup, insert,
  find, ltb, if◌then◌else◌, ◌==◌, concat, contains,
}
use aof.Tasks.Schema.{done, same, Task, TaskRouting}
use aof.Tasks.Promotion.{find_task, truthy}
use aof.Throttle.{
  ThrottleState, ThrottleCheckParams, ThrottleCheckResult, allowed, global_concurrency,
  team_concurrency, global_interval, team_interval, poll_limit, named,
}
use aof.Scheduler.{SchedulerAction}

pub record TeamDispatch : Type 0 where
  pub max_concurrent : Option ℕ
  pub min_interval_ms : Option ℕ

pub record OrgTeam : Type 0 where
  pub id : String
  pub orchestrator : Option String
  pub lead : Option String
  pub dispatch : Option TeamDispatch

-- The settings, the listing and the metrics that one poll hands over.
pub record Poll : Type 0 where
  pub now : ℕ
  pub throttle : ThrottleState
  pub teams : List OrgTeam
  pub dry_run : Bool
  pub max_concurrent_dispatches : Option ℕ
  pub min_dispatch_interval_ms : Option ℕ
  pub max_dispatches_per_poll : Option ℕ
  pub all : List Task
  pub current_in_progress : ℕ
  pub blocked_by_subtasks : List String
  pub circular_deps : List String
  pub occupied_resources : Dict String
  pub in_progress_tasks : List Task

-- `value ?? fallback`
abbrev pub or_default {ℓ} : {A : Type ℓ} → Option A → A → A
or_default none fallback = fallback
or_default (some a) fallback = a

abbrev pub max_dispatches_of : Poll → ℕ
max_dispatches_of p = or_default p.max_concurrent_dispatches 3

abbrev pub per_poll : Poll → ℕ
per_poll p = or_default p.max_dispatches_per_poll 10

-- `minDispatchIntervalMs > 0 ? minDispatchIntervalMs : undefined`
abbrev pub given_interval : Poll → Option ℕ
given_interval p =
    let ms = or_default p.min_dispatch_interval_ms 0 in if ltb 0 ms then some ms else none

abbrev team_entry : OrgTeam → Option TeamDispatch → Dict TeamDispatch → Dict TeamDispatch
team_entry t none m = m
team_entry t (some d) m = insert t.id d m

unfoldable pub team_config_map : List OrgTeam → Dict TeamDispatch → Dict TeamDispatch
team_config_map [] m = m
team_config_map (t ∷ ts) m = team_config_map ts (team_entry t t.dispatch m)

-- `inProgressByTeam.get(team) ?? 0`
abbrev pub running : Dict ℕ → String → ℕ
running m team = or_default (lookup team m) 0

abbrev pub count_in : Option String → Dict ℕ → Dict ℕ
count_in none m = m
count_in (some team) m = insert team (suc (running m team)) m

unfoldable pub running_by_team : List Task → Dict ℕ → Dict ℕ
running_by_team [] m = m
running_by_team (t ∷ ts) m = running_by_team ts (count_in (named t.routing.team) m)

-- What the loop changes.
pub record Plan : Type 0 where
  pub actions : List SchedulerAction
  pub pending_dispatches : ℕ
  pub dispatches_this_poll : ℕ
  pub in_progress_by_team : Dict ℕ

-- The dependencies without a finished task in the listing.
unfoldable pub unresolved_deps : List Task → List String → List String
unfolding find_task
unresolved_deps all [] = []
unresolved_deps all (d ∷ ds) =
    let rest = unresolved_deps all ds in
    elim (find_task d all) [
      | none ↦ d ∷ rest
      | some t ↦ if same t.status done then rest else d ∷ rest
    ]

abbrev pub no_texts : List String → Bool
no_texts [] = true
no_texts (d ∷ ds) = false

abbrev pub is_occupied : Dict String → Option String → Bool
is_occupied m none = false
is_occupied m (some resource) =
    truthy (some resource) && elim (lookup resource m) [ none ↦ false | some holder ↦ true ]

abbrev team_config : Poll → Option String → Option TeamDispatch
team_config p none = none
team_config p (some team) = lookup team (team_config_map p.teams [])

abbrev team_running : Plan → Option String → Option ℕ
team_running plan none = none
team_running plan (some team) = some (running plan.in_progress_by_team team)

abbrev limit_of : Option TeamDispatch → Option ℕ
limit_of none = none
limit_of (some d) = d.max_concurrent

abbrev interval_of : Option TeamDispatch → Option ℕ
interval_of none = none
interval_of (some d) = d.min_interval_ms

unfoldable pub throttle_params : Poll → Plan → Task → ThrottleCheckParams
unfolding team_config_map
throttle_params p plan t =
    let config = team_config p (named t.routing.team) in
    record {
      team = t.routing.team;
      current_in_progress = p.current_in_progress;
      pending_dispatches = plan.pending_dispatches;
      max_dispatches = max_dispatches_of p;
      team_in_progress = team_running plan (named t.routing.team);
      team_max_concurrent = limit_of config;
      min_dispatch_interval_ms = given_interval p;
      team_min_interval_ms = interval_of config;
      dispatches_this_poll = plan.dispatches_this_poll;
      max_dispatches_per_poll = per_poll p;
    }

-- The start of the throttle's reason.
abbrev reason_text : String → ThrottleCheckResult → String
reason_text team global_concurrency = "global concurrency "
reason_text team team_concurrency = concat (concat "team " team) " concurrency "
reason_text team global_interval = "global interval "
reason_text team team_interval = concat (concat "team " team) " interval "
reason_text team poll_limit = "poll cycle limit "
reason_text team allowed = ""

-- `throttleCheck.reason?.includes("global interval")`
unfoldable pub ends_poll : Option String → ThrottleCheckResult → Bool
ends_poll team r = contains (reason_text (or_default team "") r) "global interval"

abbrev lead_of : OrgTeam → Option String
lead_of t = elim t.orchestrator [ none ↦ t.lead | some o ↦ some o ]

abbrev either : Option String → Option String → Option String
either none other = other
either (some a) other = some a

abbrev lead_or : String → Option OrgTeam → String
lead_or target none = target
lead_or target (some team) = elim (lead_of team) [
  | none ↦ target
  | some agent ↦ if truthy (some agent) then agent else target
]

-- `routing.agent ?? routing.role ?? routing.team`, a team replaced by its lead; an empty text is no
-- target.
unfoldable pub target_agent : List OrgTeam → TaskRouting → Option String
target_agent teams r = elim (named (either r.agent (either r.role r.team))) [
  | none ↦ none
  | some target ↦ some (lead_or target (find (λ t. t.id == target) teams))
]
