-- ===== src/Protocol/Examples.antt =====
-- Examples of the router. In the project "site", `build` is in progress under a lease of "swe-1", `docs` is ready and
-- routed to "writer", and `epic` is their parent. Two calls on one task are locked, the first of which fails.
use aof.Prelude.{
  String, true, false, none, some, List, [], ◌∷◌, lookup, insert, concat, ◌≡◌, ◌≢◌, refl, arith,
  eq_iff, text-cases, some_eq, subst, inl, inr,
}
use aof.Tasks.Schema.{
  ready, in_progress, blocked, review, Task, TaskLease, is_valid_transition, valid_transitions,
}
use aof.Tasks.Sample.{task, build_lease, no_routing}
use aof.Tasks.Store.{
  Store, return, get_task, settle_transition, write_task, transitioned, transition_task,
}
use aof.Tasks.Cascade.{cascade_on_block, dependents, list_tasks, block_each}
use aof.Tasks.Cascade.Promoted.{status_at}
use aof.Protocol.Formatters.{StatusUpdatePayload, should_append_work_log}
use aof.Handler.Completion.{CompletionOutcome}
use aof.Protocol.{
  transition_if_valid, apply_completion_outcome, check_authorization, resolve_authorized_agent,
}
use aof.Protocol.Outcome.{apply_completion_outcome_lem}
use aof.Protocol.Router.{
  ProtocolRouter, ProtocolEnvelope, HandoffRequestPayload, completion_report, handoff_request,
  handle_handoff_request, route, Stores, handle_status_update, if_stored, update_status,
  cascade_blocked, log_work, resolve_project_store,
}
use aof.Protocol.Authority.{route_unauthorized}
use aof.Protocol.Shallow.{AllShallow}
use aof.Protocol.Delegation.{StoresShallow, route_all, route_all-StoresShallow}
use aof.Protocol.Handoff.{answered, handoff_ack_ignored}
use aof.Protocol.Lock.{
  Call, no_locks, Event, called, started, ended, freed, running, released, is_released, happen,
  run_events, with_lock, delete,
}
use aof.Protocol.Lock.Fifo.{run_events_fifo}

abbrev build : Task
build = task "build" in_progress (some build_lease) []

abbrev docs : Task
docs = record (task "docs" ready none []) { routing = record no_routing { agent = some "writer" } }

abbrev epic : Task
epic = task "epic" ready none []

abbrev site : Store
site = ("build", build) ∷ ("docs", docs) ∷ ("epic", epic) ∷ []

build_stored : lookup "build" site ≡ some build
unfolding lookup
build_stored = refl

docs_stored : lookup "docs" site ≡ some docs
unfolding lookup
docs_stored = refl

epic_stored : lookup "epic" site ≡ some epic
unfolding lookup
epic_stored = refl

apply_completion_outcome_lem_example :
    (u : Task) × (s' : Store) × (apply_completion_outcome 50 build CompletionOutcome.done site
      ≡ (return tt, s'))
    × (lookup "build" s' ≡ some u)
    × (u.status ≡ review)
    × (lookup "docs" s' ≡ lookup "docs" site)
apply_completion_outcome_lem_example =
    apply_completion_outcome_lem 50 "build" "docs" build CompletionOutcome.done site build_stored
      refl refl

abbrev router : ProtocolRouter
router = record { cascade_blocks = true; logging = true; iso = λ n. "now"; content_hash = λ s. s }

abbrev stores : Stores
stores = record { own = []; projects = some (("site", site) ∷ []) }

abbrev report : String → ProtocolEnvelope
report from = record {
  project_id = "site";
  task_id = "build";
  from_agent = from;
  message = completion_report CompletionOutcome.done;
}

site_found : resolve_project_store stores "site" ≡ some site
unfolding lookup
site_found = refl

swe_names : build_lease.agent ≢ "swe-2"
swe_names e = let same_text = (eq_iff "swe-1" "swe-2").1 e in ground arith

-- The lease of `build` is the one of "swe-1".
intruder : (l : TaskLease) → some build_lease ≡ some l → l.agent ≢ "swe-2"
intruder l held = subst (λ (x : TaskLease). x.agent ≢ "swe-2") (some_eq held) swe_names

route_unauthorized_example :
    ((route router 50 (report "swe-2") stores).0 ≡ return tt)
    × (resolve_project_store (route router 50 (report "swe-2") stores).1 "site"
        ≡ resolve_project_store stores "site")
route_unauthorized_example =
    route_unauthorized router 50 (report "swe-2") stores site build "site" site_found build_stored
      intruder (λ free. cc) refl

site-AllShallow : AllShallow site
unfolding lookup
site-AllShallow id t h = ground (arith, eq_iff "build" id, eq_iff "docs" id, eq_iff "epic" id)

stores-StoresShallow : StoresShallow stores
unfolding lookup
stores-StoresShallow q s h = elim (text-cases "site" q) [
  | inl own ↦
      let held : site ≡ s = some_eq (ground (arith, eq_iff "site" q)) in
      subst AllShallow held site-AllShallow
  | inr other ↦ ground arith
]

abbrev handoff : String → String → HandoffRequestPayload
handoff id to = record { task_id = id; parent_task_id = "epic"; to_agent_id = to }

abbrev handoff_of_build : ProtocolEnvelope
handoff_of_build = record {
  project_id = "site";
  task_id = "build";
  from_agent = "swe-1";
  message = handoff_request (handoff "build" "qa");
}

route_all-StoresShallow_example :
    StoresShallow (route_all router ((10, handoff_of_build) ∷ (20, report "swe-1") ∷ []) stores)
route_all-StoresShallow_example =
    route_all-StoresShallow router ((10, handoff_of_build) ∷ (20, report "swe-1") ∷ []) stores
      stores-StoresShallow

writer_may : check_authorization "writer" docs ≡ true
unfolding check_authorization resolve_authorized_agent
writer_may = refl

holder_may : check_authorization "swe-1" build ≡ true
unfolding check_authorization resolve_authorized_agent
holder_may = refl

handoff_ack_ignored_example :
    answered 10 20 "build" "swe-1" (handoff "build" "qa") false site
    ≡ (return tt, (handle_handoff_request 10 "build" "swe-1" (handoff "build" "qa") site).1)
handoff_ack_ignored_example =
    handoff_ack_ignored 10 20 "build" "swe-1" (handoff "build" "qa") site build epic build_lease
      false refl build_stored refl holder_may epic_stored refl refl refl

-- The status of a task changes on a status update from any agent.
abbrev stop_build : StatusUpdatePayload
stop_build = record {
  agent_id = "swe-2";
  status = some blocked;
  progress = none;
  blockers = none;
  notes = none;
}

anyone_may_update :
    status_at (handle_status_update router 50 "build" stop_build site).1 "build" ≡ some blocked
unfolding handle_status_update if_stored update_status transition_if_valid transition_task get_task
    settle_transition write_task transitioned is_valid_transition valid_transitions cascade_blocked
    cascade_on_block dependents list_tasks block_each log_work lookup insert concat
    should_append_work_log
anyone_may_update = refl

abbrev two_calls : List Event
two_calls =
    called "build"
    ∷ called "build"
    ∷ started 1
    ∷ started 0
    ∷ ended 0 false
    ∷ freed 0
    ∷ started 1
    ∷ []

abbrev first : Call
first = record { task_id = "build"; before = none; phase = released }

abbrev second : Call
second = record { task_id = "build"; before = some 0; phase = running }

first_over : (run_events two_calls no_locks).calls 0 ≡ some first
unfolding run_events happen with_lock lookup insert delete
first_over = refl

second_runs : (run_events two_calls no_locks).calls 1 ≡ some second
unfolding run_events happen with_lock lookup insert delete
second_runs = refl

run_events_fifo_example : is_released first.phase ≡ true
run_events_fifo_example =
    run_events_fifo two_calls 0 1 first second first_over second_runs refl (omega arith) refl
