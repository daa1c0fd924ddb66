-- ===== src/Dag/Sample.antt =====
-- Two small workflows that the examples run. In the first, `plan` and `build` are
-- roots, `test` needs `build`, and `release` needs `plan` and `test`; in the second,
-- `release` needs `plan` and `build`, and `docs` stands alone.
use aof.Prelude.{String, true, Option, none, List, [], ◌∷◌, lookup, insert}
use aof.Prelude.Int.{ℤ}
use aof.Json.{Value, Fields}
use aof.Workflow.Schema.{
  Hop, WorkflowDefinition, WorkflowState, WorkflowStatus, HopStatus, HopState, pending, all,
}
use aof.Dag.Condition.{TaskMeta, build_condition_context}
use aof.Dag.Types.{Result, ok, type_error, out_of_fuel, HopEvent, Outcome, DagEvaluationResult}
use aof.Dag.Status.{status_of, fresh, with_status, finished, write}
use aof.Dag.Cascade.{
  build_downstream_index, downstream_of, find_hop, all_non_success, skip, cascade_hop, cascade_each,
  cascade_skips,
}
use aof.Dag.Conditions.{all_terminal, evaluate_hop, evaluate_newly_eligible_conditions}
use aof.Dag.Ready.{join_satisfied, newly_ready, determine_ready_hops, mark_ready}
use aof.Dag.Completion.{check_dag_completion, finish}
use aof.Dag.Rejection.{
  reset_state, reset_origin_hop, reset_all_hops_for_origin, rejections, break_circuit, apply_by,
  apply_strategy, reject_hop, rejection_ready_hops,
}
use aof.Dag.Evaluate.{evaluate_dag}

abbrev pub hop : String → List String → Hop
hop id deps = record {
  id = id;
  role = "swe";
  depends_on = deps;
  join_type = all;
  auto_advance = true;
  condition = none;
  description = none;
  can_reject = true;
  rejection_strategy = none;
  timeout = none;
  escalate_to = none;
}

abbrev pub release_plan : WorkflowDefinition
release_plan = record {
  name = "release";
  hops =
      hop "plan" []
      ∷ hop "build" []
      ∷ hop "test" ("build" ∷ [])
      ∷ hop "release" ("plan" ∷ "test" ∷ [])
      ∷ [];
}

abbrev pub join_plan : WorkflowDefinition
join_plan = record {
  name = "join";
  hops =
      hop "plan" [] ∷ hop "build" [] ∷ hop "docs" [] ∷ hop "release" ("plan" ∷ "build" ∷ []) ∷ [];
}

abbrev pub blank : HopStatus → HopState
blank s = record {
  status = s;
  started_at = none;
  completed_at = none;
  agent = none;
  correlation_id = none;
  result = none;
  rejection_count = none;
  escalated = none;
}

abbrev pub state_of : HopStatus → HopStatus → HopStatus → HopStatus → WorkflowState
state_of a b c d = record {
  status = WorkflowStatus.running;
  hops = ("plan", blank a) ∷ ("build", blank b) ∷ ("test", blank c) ∷ ("release", blank d) ∷ [];
  started_at = none;
  completed_at = none;
}

abbrev pub event : String → Outcome → HopEvent
event id o = record { hop_id = id; outcome = o; result = none }

abbrev pub no_number : Value → Option ℤ
no_number v = none

abbrev pub meta : TaskMeta
meta = record { status = "in-progress"; tags = []; priority = "normal"; routing = Fields.end }

abbrev pub value : Result DagEvaluationResult → DagEvaluationResult
value (ok r) = r
value type_error = record {
  state = state_of pending pending pending pending;
  changes = [];
  ready_hops = [];
  dag_status = none;
  task_status = none;
}
value out_of_fuel = record {
  state = state_of pending pending pending pending;
  changes = [];
  ready_hops = [];
  dag_status = none;
  task_status = none;
}

abbrev pub join_state : HopStatus → HopStatus → HopStatus → HopStatus → WorkflowState
join_state a b c d = record {
  status = WorkflowStatus.running;
  hops = ("plan", blank a) ∷ ("build", blank b) ∷ ("docs", blank c) ∷ ("release", blank d) ∷ [];
  started_at = none;
  completed_at = none;
}

abbrev pub step : WorkflowState → HopEvent → Result DagEvaluationResult
step state e = evaluate_dag no_number release_plan meta 7 state e

abbrev pub join_step : WorkflowState → HopEvent → Result DagEvaluationResult
join_step state e = evaluate_dag no_number join_plan meta 7 state e

-- What a test of the evaluator computes with.
unfoldable pub program : Unit {0}
unfolding evaluate_dag cascade_skips cascade_each cascade_hop skip write finished all_non_success
    find_hop downstream_of build_downstream_index lookup insert status_of
    evaluate_newly_eligible_conditions evaluate_hop determine_ready_hops newly_ready join_satisfied
    mark_ready finish check_dag_completion reject_hop rejections break_circuit apply_strategy
    apply_by reset_all_hops_for_origin reset_origin_hop reset_state rejection_ready_hops
    build_condition_context all_terminal with_status fresh
program = tt
