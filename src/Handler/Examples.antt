-- ===== src/Handler/Examples.antt =====
-- Examples of the end of a run: `plan` is done, and `build` runs.
use aof.Prelude.{String, Option, none, some, [], ◌∷◌, lookup, ◌≡◌, refl, arith, eq_iff}
use aof.Prelude.Int.{ℤ}
use aof.Json.{Value}
use aof.Tasks.Sample.{task}
use aof.Tasks.Schema.{in_progress}
use aof.Workflow.Schema.{HopStatus, WorkflowStatus}
use aof.Workflow.Sample.{release_plan_valid}
use aof.Dag.Sample.{release_plan}
use aof.Dag.Status.{status_of, fresh}
use aof.Dag.Types.{ok}
use aof.Dag.Cascade.{find_hop}
use aof.Escalation.Timeouts.{DagTask, SpawnResult, spawned}
use aof.Handler.Poll.{dispatch_next}
use aof.Workflow.Schema.{Hop}
use aof.Handler.Completion.{
  RunResult, done, DagHopCompletionResult, find_dispatched_hop, handle_dag_hop_completion,
}
use aof.Handler.Frees.{OnlyDispatched, NoneDispatched, handle_completion_frees}

abbrev release : DagTask
release = record {
  task = task "patch" in_progress none [];
  definition = release_plan;
  state = record {
    status = WorkflowStatus.running;
    hops =
        ("plan", fresh HopStatus.complete)
        ∷ ("build", fresh HopStatus.dispatched)
        ∷ ("test", fresh HopStatus.pending)
        ∷ ("release", fresh HopStatus.pending)
        ∷ [];
    started_at = some 0;
    completed_at = none;
  };
}

abbrev finished_run : RunResult
finished_run = record { outcome = done; notes = "built" }

build_alone : OnlyDispatched "build" release
unfolding status_of lookup fresh
build_alone j other d =
    ground (arith, eq_iff "plan" j, eq_iff "build" j, eq_iff "test" j, eq_iff "release" j)

abbrev accepting : Hop → String → SpawnResult
accepting h role = spawned (some "s-1")

no_numbers : Value → Option ℤ
no_numbers v = none

handle_completion_frees_example :
    (answer : DagHopCompletionResult) × (t' : DagTask) × (handle_dag_hop_completion no_numbers 50
        finished_run release
      ≡ ok (answer, t'))
    × (status_of t'.state.hops "build" ≡ some HopStatus.complete)
    × NoneDispatched t'
    × ((next : String) × OnlyDispatched next (dispatch_next accepting 60 t'))
unfolding find_dispatched_hop fresh find_hop
handle_completion_frees_example =
    handle_completion_frees no_numbers 50 60 accepting finished_run release "build"
      release_plan_valid refl build_alone refl
