-- ===== src/Dag/Evaluate.antt =====
-- src/dispatch/dag-evaluator.ts, `evaluateDAG`.
-- The fuel of the skip cascade is one more than the number of hops in the state.
use aof.Prelude.{ℕ, suc, String, Option, none, List, [], Dict, lookup, length}
use aof.Prelude.Int.{ℤ}
use aof.Json.{Value}
use aof.Workflow.Schema.{WorkflowDefinition, WorkflowState, HopStatus, HopState}
use aof.Dag.Condition.{TaskMeta, build_condition_context}
use aof.Dag.Types.{
  Result, ok, ◌>>=◌, HopEvent, Outcome, rejected, complete, failed, skipped, Work,
  DagEvaluationResult,
}
use aof.Dag.Status.{status_of, finished, write}
use aof.Dag.Cascade.{cascade_skips}
use aof.Dag.Conditions.{evaluate_newly_eligible_conditions}
use aof.Dag.Ready.{determine_ready_hops, mark_ready}
use aof.Dag.Completion.{finish}
use aof.Dag.Rejection.{reject_hop, rejection_ready_hops}

unfoldable pub cascade_fuel : Dict HopState → ℕ
cascade_fuel hops = suc (length hops)

-- Step 2: `{ ...newState.hops[hopId]!, status: outcome, completedAt, result }`.
unfoldable pub apply_event : ℕ → HopStatus → HopEvent → Work → Work
unfolding finished write
apply_event timestamp outcome event w =
    let base = finished outcome timestamp (lookup event.hop_id w.hops) in
    write event.hop_id (status_of w.hops event.hop_id) (record base { result = event.result }) none
      w

module _ (to_number : Value → Option ℤ) (def : WorkflowDefinition) (task : TaskMeta)
    (timestamp : ℕ) where
  -- Steps 4 and 5, and the ready hops that step 5 found.
  unfoldable pub settle : Work → Work × List String
  settle w =
      let context = build_condition_context w.hops task in
      let judged = evaluate_newly_eligible_conditions to_number context task timestamp def.hops w in
      let ready_hops = determine_ready_hops judged.hops def.hops in
      (mark_ready ready_hops judged, ready_hops)

  -- Step 3, for an outcome other than "complete".
  unfoldable pub cascade_event : HopStatus → String → Work → Result Work
  unfolding cascade_fuel
  cascade_event HopStatus.complete id w = ok w
  cascade_event _ id w = cascade_skips def timestamp (cascade_fuel w.hops) id w

  -- A completion, failure or skip.
  unfoldable pub evaluate_normal : WorkflowState → HopStatus → HopEvent → Result DagEvaluationResult
  unfolding apply_event cascade_event settle
  evaluate_normal state outcome event =
      let start : Work = record { hops = state.hops; changes = [] } in
      cascade_event outcome event.hop_id (apply_event timestamp outcome event start) >>= λ w.
      ok (finish state timestamp (settle w).1 (settle w).0)

  unfoldable pub evaluate_rejection : WorkflowState → HopEvent → Result DagEvaluationResult
  unfolding cascade_fuel
  evaluate_rejection state event =
      let start : Work = record { hops = state.hops; changes = [] } in
      reject_hop def timestamp (cascade_fuel state.hops) event.hop_id start >>= λ w.
      ok (finish state timestamp (rejection_ready_hops w.hops def.hops) w)

  unfoldable pub dispatch_outcome : Outcome → WorkflowState → HopEvent → Result DagEvaluationResult
  unfolding evaluate_normal evaluate_rejection
  dispatch_outcome rejected state event = evaluate_rejection state event
  dispatch_outcome complete state event = evaluate_normal state HopStatus.complete event
  dispatch_outcome failed state event = evaluate_normal state HopStatus.failed event
  dispatch_outcome skipped state event = evaluate_normal state HopStatus.skipped event

  unfoldable pub evaluate_dag : WorkflowState → HopEvent → Result DagEvaluationResult
  unfolding dispatch_outcome
  evaluate_dag state event = dispatch_outcome event.outcome state event
