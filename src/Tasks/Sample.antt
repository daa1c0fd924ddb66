-- ===== src/Tasks/Sample.antt =====
-- A sample store with three tasks: `lint` is ready, `build` is in progress with a lease, and `ship`, which
-- depends on `build`, is done.
use aof.Prelude.{String, Option, none, some, List, [], ◌∷◌, lookup, ◌≡◌, refl, arith, eq_iff}
use aof.Tasks.Schema.{
  TaskRouting, normal, TaskStatus, Task, TaskLease, Metadata, ready, in_progress, done,
}
use aof.Tasks.Store.{Store}
use aof.Tasks.Calls.Safe.{WellFormed}

abbrev pub no_metadata : Metadata
no_metadata = record {
  block_reason = none;
  cancellation_reason = none;
  retry_count = none;
  review_required = none;
  dispatch_failures = none;
  last_dispatch_failure_reason = none;
  last_dispatch_failure_at = none;
  error_class = none;
  deadletter_reason = none;
  deadletter_last_error = none;
  deadletter_error_class = none;
  deadletter_at = none;
  deadletter_failure_count = none;
  last_blocked_at = none;
  delegation_depth = none;
}

abbrev pub no_routing : TaskRouting
no_routing = record { role = some "swe"; team = none; agent = none; tags = []; workflow = none }

abbrev pub task : String → TaskStatus → Option TaskLease → List String → Task
task id status lease deps = record {
  id = id;
  title = id;
  body = "";
  priority = normal;
  routing = no_routing;
  parent_id = none;
  content_hash = none;
  resource = none;
  callback_depth = none;
  status = status;
  lease = lease;
  depends_on = deps;
  updated_at = 0;
  last_transition_at = 0;
  metadata = no_metadata;
}

abbrev pub build_lease : TaskLease
build_lease = record { agent = "swe-1"; acquired_at = 0; expires_at = 600; renew_count = 0 }

abbrev pub lint : Task
lint = task "lint" ready none []

abbrev pub build : Task
build = task "build" in_progress (some build_lease) []

abbrev pub ship : Task
ship = task "ship" done none ("build" ∷ [])

abbrev pub board : Store
board = ("lint", lint) ∷ ("build", build) ∷ ("ship", ship) ∷ []

pub lint_stored : lookup "lint" board ≡ some lint
unfolding lookup
lint_stored = refl

pub build_stored : lookup "build" board ≡ some build
unfolding lookup
build_stored = refl

pub ship_stored : lookup "ship" board ≡ some ship
unfolding lookup
ship_stored = refl

pub board-WellFormed : WellFormed board
unfolding lookup
board-WellFormed id t h = ground (arith, eq_iff "lint" id, eq_iff "build" id, eq_iff "ship" id)
