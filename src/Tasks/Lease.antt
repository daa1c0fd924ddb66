-- ===== src/Tasks/Lease.antt =====
-- src/store/lease.ts, and `isLeaseActive` of src/dispatch/lease-manager.ts. The run artifact and the
-- heartbeat of `acquireLease` are files beside the task, which no operation here reads.
pub mod Exclusive
use aof.Prelude.{
  ℕ, ◌+◌, String, Bool, true, false, not, ◌&&◌, Option, none, some, List, [], ◌∷◌, ◌++◌, lookup,
  every, if◌then◌else◌, ◌==◌, ltb, leb,
}
use aof.Tasks.Schema.{TaskStatus, ready, in_progress, blocked, done, same, Task, TaskLease}
use aof.Tasks.Store.{
  Store, Action, return, ◌>>=◌, ◌>>◌, pure, fail, refuse_if, get_task, write_task, transition_task,
  no_patch, cannot_lease, leased_to, no_lease, renewals_exhausted,
}

abbrev pub default_ttl_ms : ℕ
default_ttl_ms = 600000

abbrev pub default_max_renewals : ℕ
default_max_renewals = 3

unfoldable pub is_lease_active : ℕ → Option TaskLease → Bool
is_lease_active now none = false
is_lease_active now (some l) = ltb now l.expires_at

-- An unexpired lease of another agent stands in the way.
abbrev check_lease : ℕ → String → Option TaskLease → Action (Unit {0})
check_lease now agent none = pure tt
check_lease now agent (some l) =
    refuse_if (ltb now l.expires_at && not (l.agent == agent)) (leased_to l.agent)

abbrev pub new_lease : ℕ → ℕ → String → TaskLease
new_lease now ttl agent = record {
  agent = agent;
  acquired_at = now;
  expires_at = now + ttl;
  renew_count = 0;
}

unfoldable pub with_lease : ℕ → Option TaskLease → Task → Task
with_lease now l t = record t { lease = l; updated_at = now }

-- A ready task moves on to "in-progress".
unfoldable pub start_task : ℕ → String → Task → Action Task
start_task now id t =
    if same t.status ready then transition_task now id in_progress no_patch else pure t

unfoldable pub acquire_lease : ℕ → ℕ → String → String → Action Task
unfolding get_task write_task with_lease start_task transition_task
acquire_lease now ttl id agent = do
  t ← get_task id
  refuse_if (not (same t.status ready) && not (same t.status in_progress)) (cannot_lease t.status)
  check_lease now agent t.lease
  write_task (with_lease now (some (new_lease now ttl agent)) t)
  start_task now id (with_lease now (some (new_lease now ttl agent)) t)

-- The lease, if the agent holds it.
abbrev held_lease : String → Option TaskLease → Action TaskLease
held_lease agent none = fail no_lease
held_lease agent (some l) = if l.agent == agent then pure l else fail (leased_to l.agent)

abbrev pub renewed : ℕ → ℕ → TaskLease → TaskLease
renewed now ttl l = record l { expires_at = now + ttl; renew_count = l.renew_count + 1 }

unfoldable pub renew_lease : ℕ → ℕ → ℕ → String → String → Action Task
unfolding get_task write_task with_lease
renew_lease now ttl max_renewals id agent = do
  t ← get_task id
  l ← held_lease agent t.lease
  refuse_if (leb max_renewals l.renew_count) (renewals_exhausted max_renewals)
  write_task (with_lease now (some (renewed now ttl l)) t)
  pure (with_lease now (some (renewed now ttl l)) t)

-- The cleared lease is not written: `transition` reads the task again.
unfoldable pub release_lease : ℕ → String → String → Action Task
unfolding get_task transition_task
release_lease now id agent = do
  t ← get_task id
  l ← held_lease agent t.lease
  transition_task now id ready no_patch

-- `checkDependenciesSatisfied`
unfoldable pub dependencies_satisfied : Store → List String → Bool
dependencies_satisfied s deps =
    every (λ d. elim (lookup d s) [ none ↦ false | some t ↦ same t.status done ]) deps

-- `lease.expiresAt <= Date.now()`
abbrev pub has_expired : ℕ → Option TaskLease → Bool
has_expired now none = false
has_expired now (some l) = leb l.expires_at now

abbrev drop_lease : Task → Task
drop_lease t = record t { lease = none }

-- A task with an expired lease; the answer says whether it was one.
unfoldable pub expire_task : ℕ → Task → Action Bool
unfolding dependencies_satisfied write_task
expire_task now t s =
    if not (has_expired now t.lease)
    then (return false, s)
    else if same t.status blocked && not (dependencies_satisfied s t.depends_on)
    then (write_task (drop_lease t) >> pure true) s
    else (transition_task now t.id ready no_patch >>= λ _. pure true) s

-- The loop, over the tasks as they were listed; the result is the identifiers.
unfoldable pub expire_each : ℕ → List Task → List String → Action (List String)
expire_each now [] expired = pure expired
expire_each now (t ∷ ts) expired = expire_task now t >>= λ gone.
    expire_each now ts (if gone then expired ++ t.id ∷ [] else expired)

-- `store.list({ status })`
unfoldable pub list_by_status : TaskStatus → Store → List Task
list_by_status st [] = []
list_by_status st ((k, t) ∷ s) =
    let rest = list_by_status st s in if same t.status st then t ∷ rest else rest

unfoldable pub expire_leases : ℕ → Action (List String)
unfolding expire_each list_by_status
expire_leases now s =
    expire_each now (list_by_status in_progress s ++ list_by_status blocked s) [] s
