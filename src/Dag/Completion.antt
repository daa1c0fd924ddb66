-- ===== src/Dag/Completion.antt =====
-- src/dispatch/dag-evaluator.ts, `checkDAGCompletion` and what `evaluateDAG` does with its result.
use aof.Prelude.{
  ℕ, String, Bool, true, false, Option, none, some, List, [], ◌∷◌, Dict, if◌then◌else◌, every,
  any_of,
}
use aof.Workflow.Schema.{HopState, HopStatus, WorkflowState, WorkflowStatus}
use aof.Dag.Types.{TaskOutcome, task_done, task_failed, Work, DagEvaluationResult}
use aof.Dag.Status.{is_terminal}

abbrev pub is_failed : HopStatus → Bool
is_failed HopStatus.failed = true
is_failed _ = false

-- `Object.values(state.hops).map((h) => h.status)`
abbrev pub statuses : Dict HopState → List HopStatus
statuses [] = []
statuses ((id, s) ∷ m) = s.status ∷ statuses m

unfoldable pub check_dag_completion : Dict HopState → Option WorkflowStatus
check_dag_completion hops =
    if every (λ s. is_terminal (some s)) (statuses hops)
    then some (
        if any_of is_failed (statuses hops) then WorkflowStatus.failed else WorkflowStatus.complete)
    else none

abbrev pub task_status_of : Option WorkflowStatus → Option TaskOutcome
task_status_of (some WorkflowStatus.complete) = some task_done
task_status_of (some WorkflowStatus.failed) = some task_failed
task_status_of _ = none

-- The end of `evaluateDAG`: the DAG-level status, and the suggested task status.
unfoldable pub finish : WorkflowState → ℕ → List String → Work → DagEvaluationResult
finish state timestamp ready_hops w =
    let dag_status = check_dag_completion w.hops in
    record {
      state = elim dag_status [
        | none ↦ record state { hops = w.hops }
        | some s ↦ record state { status = s; hops = w.hops; completed_at = some timestamp }
      ];
      changes = w.changes;
      ready_hops = ready_hops;
      dag_status = dag_status;
      task_status = task_status_of dag_status;
    }
