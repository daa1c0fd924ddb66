-- ===== src/Tasks/Examples.antt =====
-- Tests and examples of the task operations, on the sample store.
use aof.Prelude.{
  Option, String, true, false, none, some, List, [], ◌∷◌, lookup, ◌≡◌, ◌≢◌, ◌↔◌, refl, arith, subst,
  eq_iff,
}
use aof.Tasks.Sample.{
  board, board-WellFormed, task, build, ship, build_stored, ship_stored, no_metadata, build_lease,
}
use aof.Tasks.Schema.{blocked, Task, done, deadletter, is_valid_transition, valid_transitions}
use aof.Tasks.Store.{Store, return, throw, StoreError}
use aof.Tasks.Lease.{acquire_lease}
use aof.Tasks.Lease.Exclusive.{acquire_lease_excludes}
use aof.Tasks.Failures.{transition_to_deadletter}
use aof.Tasks.Failures.Budget.{HasCause, transition_to_deadletter_stamps}
use aof.Tasks.Dependencies.{deps_of, has_cycle, dfs, search_each, add_dependency}
use aof.Tasks.Dependencies.Graph.{Needs, Reach, IsAcyclic}
use aof.Tasks.Dependencies.Search.{has_cycle_iff}
use aof.Tasks.Dependencies.Acyclic.{add_dependency-IsAcyclic}
use aof.Tasks.Calls.{Call, run_calls, block, acquire, renew, cancel}
use aof.Tasks.Calls.Safe.{WellFormed, run_calls-WellFormed, run_calls_keep_over}

edges_of_board : (a b : String) → Needs board a b → (a ≡ "ship") × (b ≡ "build")
unfolding deps_of lookup
edges_of_board a b h =
    ground (arith, eq_iff "lint" a, eq_iff "build" a, eq_iff "ship" a, eq_iff "build" b)

no_way_back : has_cycle board "ship" "build" ≡ false
unfolding has_cycle dfs search_each deps_of lookup
no_way_back = refl

board-IsAcyclic : IsAcyclic board
board-IsAcyclic a b e walk =
    let (at, to) = edges_of_board a b e in
    let back : Reach board "build" "ship" =
      subst (λ x. Reach board "build" x) at (subst (λ x. Reach board x a) to walk) in
    let cycle = (has_cycle_iff board "ship" "build").1 back in ground (arith, no_way_back)

abbrev calls : List Call
calls =
    record { now = 100; task_id = "build"; operation = renew 600 3 "swe-1" }
    ∷ record { now = 200; task_id = "lint"; operation = acquire 600 "swe-2" }
    ∷ record { now = 300; task_id = "ship"; operation = block "late" }
    ∷ record { now = 400; task_id = "build"; operation = cancel (some "obsolete") }
    ∷ []

run_calls-WellFormed_example : WellFormed (run_calls calls board)
run_calls-WellFormed_example = run_calls-WellFormed calls board board-WellFormed

run_calls_keep_over_example :
    (u : Task) × (lookup "ship" (run_calls calls board) ≡ some u) × (u.status ≡ done)
run_calls_keep_over_example =
    run_calls_keep_over calls board "ship" ship board-WellFormed ship_stored refl

has_cycle_iff_example : (has_cycle board "build" "ship" ≡ true) ↔ Reach board "ship" "build"
has_cycle_iff_example = has_cycle_iff board "build" "ship"

add_dependency-IsAcyclic_example : IsAcyclic (add_dependency 500 "lint" "build" board).1
add_dependency-IsAcyclic_example =
    add_dependency-IsAcyclic 500 "lint" "build" board (λ t h. (board-WellFormed "lint" t h).0)
      board-IsAcyclic

swe_names : build_lease.agent ≢ "swe-2"
swe_names e = let same_text = (eq_iff "swe-1" "swe-2").1 e in ground arith

acquire_lease_excludes_example :
    (e : StoreError) × (acquire_lease 100 600 "build" "swe-2" board ≡ (throw e, board))
acquire_lease_excludes_example =
    acquire_lease_excludes 100 600 "build" "swe-2" board build build_stored build_lease refl
      (omega arith) swe_names

transition_to_deadletter_stamps_example :
    (u : Task) × (s' : Store) × (cause : Option String) × (transition_to_deadletter 50 "build"
        "timeout" board
      ≡ (return u, s'))
    × (lookup "build" s' ≡ some u)
    × (u.status ≡ deadletter)
    × (u.lease ≡ some build_lease)
    × HasCause none cause
    × (u.metadata ≡ record no_metadata {
      deadletter_reason = cause;
      deadletter_last_error = some "timeout";
      deadletter_error_class = some "unknown";
      deadletter_at = some 50;
      deadletter_failure_count = some 0;
    })
unfolding is_valid_transition valid_transitions
transition_to_deadletter_stamps_example =
    transition_to_deadletter_stamps 50 "build" "timeout" board build build_stored refl refl

abbrev docs : Task
docs = task "docs" blocked (some build_lease) []

docs_stored : lookup "docs" (("docs", docs) ∷ []) ≡ some docs
unfolding lookup
docs_stored = refl
