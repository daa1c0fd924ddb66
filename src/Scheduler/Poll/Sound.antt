-- ===== src/Scheduler/Poll/Sound.antt =====
-- What the assignments of a poll say of the listing.
use aof.Prelude.{
  ℕ, String, true, false, Option, none, some, List, ◌++◌, includes, ◌≡◌, ◌≢◌, refl, sym, ap, ◌∙◌,
  arith, eq_iff, Bool-cases, text-cases, inl, inr, ◌⊎◌, All, All-get, All-of_mem, keep-All,
}
use mathlib.Core.List.{Memᴰ}
use aof.Tasks.Schema.{TaskStatus, backlog, ready, in_progress, blocked, done, same, Task}
use aof.Tasks.Promotion.{truthy}
use aof.Tasks.Lease.{is_lease_active}
use aof.Scheduler.{
  SchedulerAction, having_status, check_expired_leases, check_backlog_promotion, build_children_map,
  build_resource_occupancy_map,
}
use aof.Scheduler.Limits.{or_default, is_occupied}
use aof.Scheduler.Dispatch.{assignment}
use aof.Scheduler.Dispatch.Steps.{is_assign}
use aof.Scheduler.Dispatch.Gates.{IsDone, build_dispatch_actions_sound}
use aof.Scheduler.Recovery.{default_max_dispatch_retries, check_blocked_task_recovery}
use aof.Scheduler.Poll.{
  SchedulerConfig, Readings, blocked_by_subtasks, dispatch_inputs, circular_deps, poll_actions,
}
use aof.Scheduler.Poll.Metrics.{subtask_done, resource_taken}
use aof.Scheduler.Poll.Others.{
  AssignsNone, expiry-AssignsNone, heartbeat-AssignsNone, promotions-AssignsNone,
  recover-AssignsNone, later, earlier,
}

-- A parent's subtask is done; a task without identifier has none.
abbrev pub SubtaskDone : Task → Task → Type 0
SubtaskDone t u = (u.parent_id ≢ some t.id) ⊎ (u.status ≡ done) ⊎ (t.id ≡ "")

-- A task in progress uses another resource; an empty text is no resource.
abbrev pub OtherResource : Task → Task → Type 0
OtherResource t u =
    (u.status ≢ in_progress) ⊎ (u.resource ≢ t.resource) ⊎ (truthy t.resource ≡ false)

-- The listed task that an assignment of a poll is for.
pub record IsDispatched (now : ℕ) (all : List Task) (a : SchedulerAction) : Type 0 where
  pub task : Task
  pub agent : String
  pub is : a ≡ assignment task agent
  pub listed : Memᴰ task all
  pub is_ready : task.status ≡ ready
  pub resolved : All (IsDone all) task.depends_on
  pub subtasks : All (SubtaskDone task) all
  pub resource : All (OtherResource task) all
  pub unleased : is_lease_active now task.lease ≡ false
  pub no_cycle : includes task.id (circular_deps all) ≡ false

is_ready_status : (st : TaskStatus) → same st ready ≡ true → st ≡ ready
is_ready_status st h = ground arith

status_decided : (st : TaskStatus) → (same st in_progress ≡ true) ⊎ (st ≢ in_progress)
status_decided in_progress = inl refl
status_decided TaskStatus.backlog = inr (λ h. cc)
status_decided TaskStatus.ready = inr (λ h. cc)
status_decided TaskStatus.blocked = inr (λ h. cc)
status_decided TaskStatus.review = inr (λ h. cc)
status_decided TaskStatus.done = inr (λ h. cc)
status_decided TaskStatus.cancelled = inr (λ h. cc)
status_decided TaskStatus.deadletter = inr (λ h. cc)

option_decided : (o : Option String) (k : String) → (o ≡ some k) ⊎ (o ≢ some k)
option_decided none k = inr (λ h. cc)
option_decided (some j) k = elim (text-cases j k) [
  | inl e ↦ inl (ap some e)
  | inr other ↦ inr (λ h. ground (arith, eq_iff j k))
]

subtask_lem :
    (all : List Task) (t u : Task)
    → includes t.id (blocked_by_subtasks (build_children_map all)) ≡ false
    → Memᴰ u all
    → SubtaskDone t u
subtask_lem all t u free m = elim (option_decided u.parent_id t.id) [
  | inr stranger ↦ inl stranger
  | inl child ↦ elim (text-cases t.id "") [
    | inl empty ↦ inr (inr empty)
    | inr given ↦ inr (inl (subtask_done all u t.id free m child (rw given refl)))
  ]
]

resource_lem :
    (all : List Task) (t u : Task)
    → (o : Option String) → t.resource ≡ o
    → is_occupied (build_resource_occupancy_map all) t.resource ≡ false
    → Memᴰ u all
    → OtherResource t u
resource_lem all t u none e free m = inr (inr (rw e refl))
resource_lem all t u (some r) e free m = elim (status_decided u.status) [
  | inr idle ↦ inl idle
  | inl busy ↦ elim (option_decided u.resource r) [
    | inr other ↦ inr (inl (λ same_one. other (same_one ∙ e)))
    | inl it ↦ elim (Bool-cases (truthy (some r))) [
      | inr empty ↦ inr (inr (rw e empty))
      | inl given ↦
          let held = resource_taken all u r m busy it given in
          let taken : is_occupied (build_resource_occupancy_map all) t.resource ≡ true =
            rw e (ground arith) in
          let no : true ≡ false = sym taken ∙ free in cc
    ]
  ]
]

-- If neither the actions on an SLA nor those on timeouts of hops assign a task: each assignment that a poll
-- plans is for a listed ready task without an active lease and not on a cycle that was found. Its dependencies
-- are done, and its subtasks, if it has an identifier; and no listed task in progress uses its resource, if it has one.
pub poll_actions_sound :
    (config : SchedulerConfig) (r : Readings) (all : List Task) (a : SchedulerAction)
    → AssignsNone r.sla_actions
    → AssignsNone r.hop_timeout_actions
    → Memᴰ a (poll_actions config r all)
    → is_assign a.type ≡ true
    → IsDispatched r.now all a
unfolding poll_actions dispatch_inputs check_expired_leases check_backlog_promotion
    check_blocked_task_recovery
poll_actions_sound config r all a sla timeouts m assigns =
    let inputs = dispatch_inputs config r all in
    let ready_tasks = having_status ready all in
    let one =
      build_dispatch_actions_sound inputs ready_tasks a
        (earlier a _ _
          (recover-AssignsNone r.now r.draw
            (or_default config.max_dispatch_retries default_max_dispatch_retries) all
            (build_children_map all) (having_status blocked all))
          assigns
          (later a _ _
            (promotions-AssignsNone r.now all (build_children_map all) (having_status backlog all))
            assigns
            (later a _ _ timeouts assigns (
              later a _ _ sla assigns (
                later a _ _ (heartbeat-AssignsNone all r.stale_heartbeats) assigns (
                  later a _ _
                    (expiry-AssignsNone r.now
                      (having_status in_progress all ++ having_status blocked all))
                    assigns m))))))
        assigns in
    let (is_it, listed) = All-get _ one.listed (keep-All (λ t. same t.status ready) all) in
    record {
      task = one.task;
      agent = one.agent;
      is = one.is;
      listed = listed;
      is_ready = is_ready_status one.task.status is_it;
      resolved = one.free.resolved;
      subtasks = All-of_mem all (λ u i. subtask_lem all one.task u one.free.no_subtasks i);
      resource =
          All-of_mem all
            (λ u i. resource_lem all one.task u one.task.resource refl one.free.available i);
      unleased = one.free.unleased;
      no_cycle = one.free.no_cycle;
    }
