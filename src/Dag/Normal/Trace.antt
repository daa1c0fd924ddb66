-- ===== src/Dag/Normal/Trace.antt =====
-- What an evaluation of a completion, failure or skip changes, and what it leaves alone.
use aof.Prelude.{
  ℕ, String, Option, none, some, lookup, lookup-insert, ◌≡◌, ◌≢◌, refl, sym, ◌∙◌, ap, arith, subst,
  if◌then◌else◌, ◌==◌, ne→==_false, some_eq, eq_refl,
}
use aof.Prelude.Int.{ℤ}
use aof.Json.{Value}
use aof.Workflow.Schema.{
  WorkflowDefinition, WorkflowState, HopStatus, pending, complete, failed, skipped, HopState,
}
use aof.Dag.Condition.{TaskMeta}
use aof.Dag.Types.{ok, HopEvent, Outcome, rejected, DagEvaluationResult}
use aof.Dag.Status.{fresh, with_status, status_of, finished, write, finished_lem}
use aof.Dag.Log.{Explains, Explains-start, write-Explains}
use aof.Dag.Evaluate.{apply_event, evaluate_normal, dispatch_outcome, evaluate_dag}
use aof.Dag.Run.Steps.{Run}
use aof.Dag.Run.Frame.{Moved, Run-Moved, Run-frame}
use aof.Dag.Run.Log.{Run-Explains}
use aof.Dag.Run.Joins.{IsUnique}
use aof.Dag.Normal.Settled.{
  IsSettled, IsSettled-Run, evaluate_normal-IsSettled, evaluate_normal_returns, after_event,
  setting,
}

-- The status that an outcome other than "rejected" stands for.
abbrev pub outcome_status : Outcome → Option HopStatus
outcome_status Outcome.complete = some complete
outcome_status Outcome.failed = some failed
outcome_status Outcome.skipped = some skipped
outcome_status rejected = none

-- The event hop's state as step 2 builds it.
abbrev applied_state : ℕ → HopStatus → HopEvent → Option HopState → HopState
applied_state timestamp o event old =
    let base = finished o timestamp old in record base { result = event.result }

-- The event hop's state after the event: the old one with the outcome, its time and its result.
abbrev pub event_state : ℕ → HopStatus → HopEvent → Option HopState → HopState
event_state timestamp o event none = record {
  status = o;
  started_at = none;
  completed_at = some timestamp;
  agent = none;
  correlation_id = none;
  result = event.result;
  rejection_count = none;
  escalated = none;
}
event_state timestamp o event (some old) = record old {
  status = o;
  completed_at = some timestamp;
  result = event.result;
}

applied_state_lem :
    (timestamp : ℕ) (o : HopStatus) (event : HopEvent) (old : Option HopState)
    → applied_state timestamp o event old ≡ event_state timestamp o event old
unfolding finished with_status fresh
applied_state_lem timestamp o event none = refl
applied_state_lem timestamp o event (some old) = refl

module _ (to_number : Value → Option ℤ) (def : WorkflowDefinition) (task : TaskMeta) (timestamp : ℕ)
    (state : WorkflowState) (event : HopEvent) where
  evaluate_dag_normal :
      (x : Outcome) (o : HopStatus)
      → outcome_status x ≡ some o
      → dispatch_outcome to_number def task timestamp x state event
        ≡ evaluate_normal to_number def task timestamp state o event
  unfolding dispatch_outcome
  evaluate_dag_normal Outcome.complete o h =
      ap (λ s. evaluate_normal to_number def task timestamp state s event) (some_eq h)
  evaluate_dag_normal Outcome.failed o h =
      ap (λ s. evaluate_normal to_number def task timestamp state s event) (some_eq h)
  evaluate_dag_normal Outcome.skipped o h =
      ap (λ s. evaluate_normal to_number def task timestamp state s event) (some_eq h)
  evaluate_dag_normal rejected o h = cc

  pub evaluate_dag-IsSettled :
      (o : HopStatus) (r : DagEvaluationResult)
      → outcome_status event.outcome ≡ some o
      → evaluate_dag to_number def task timestamp state event ≡ ok r
      → IsSettled to_number def task timestamp state o event r
  unfolding evaluate_dag
  evaluate_dag-IsSettled o r e h =
      evaluate_normal-IsSettled to_number def task timestamp state o event r
        (sym (evaluate_dag_normal event.outcome o e) ∙ h)

  -- Every evaluation of a completion, failure or skip returns a result, for any definition and
  -- state: no `TypeError`, and the fuel of the cascade suffices.
  pub evaluate_dag_returns :
      (o : HopStatus)
      → outcome_status event.outcome ≡ some o
      → (r : DagEvaluationResult) × (evaluate_dag to_number def task timestamp state event ≡ ok r)
  unfolding evaluate_dag
  evaluate_dag_returns o e =
      let (r, done) = evaluate_normal_returns to_number def task timestamp state o event in
      (r, evaluate_dag_normal event.outcome o e ∙ done)

  module _ (o : HopStatus) (r : DagEvaluationResult) (unique : IsUnique def.hops)
      (normal : outcome_status event.outcome ≡ some o)
      (done : evaluate_dag to_number def task timestamp state event ≡ ok r) where
    pub settled : IsSettled to_number def task timestamp state o event r
    settled = evaluate_dag-IsSettled o r normal done

    pub run :
        Run
          (setting to_number def task timestamp settled.cascaded.hops)
          (after_event to_number def task timestamp state o event)
          (record { hops = r.state.hops; changes = r.changes })
    run = IsSettled-Run to_number def task timestamp unique settled

    lookup-after_event :
        (id : String)
        → lookup id (after_event to_number def task timestamp state o event).hops ≡ (
            if event.hop_id == id
            then some (applied_state timestamp o event (lookup event.hop_id state.hops))
            else lookup id state.hops)
    unfolding apply_event write
    lookup-after_event id = lookup-insert event.hop_id id _ state.hops

    lookup-after_event_self :
        lookup event.hop_id (after_event to_number def task timestamp state o event).hops
        ≡ some (applied_state timestamp o event (lookup event.hop_id state.hops))
    lookup-after_event_self = rw (lookup-after_event event.hop_id, eq_refl event.hop_id)

    lookup-after_event_ne :
        (id : String)
        → id ≢ event.hop_id
        → lookup id (after_event to_number def task timestamp state o event).hops
          ≡ lookup id state.hops
    lookup-after_event_ne id n =
        rw (lookup-after_event id, ne→==_false event.hop_id id (λ e. n (sym e)))

    pub status-after_event_ne :
        (id : String)
        → id ≢ event.hop_id
        → status_of (after_event to_number def task timestamp state o event).hops id
          ≡ status_of state.hops id
    unfolding status_of
    status-after_event_ne id n = rw (lookup-after_event_ne id n, status_of)

    outcome-ne_pending : o ≢ pending
    outcome-ne_pending = ground arith

    status-after_event_self :
        status_of (after_event to_number def task timestamp state o event).hops event.hop_id
        ≡ some o
    unfolding status_of
    status-after_event_self = rw (
      lookup-after_event_self,
      status_of,
      finished_lem o timestamp (lookup event.hop_id state.hops),
    )

    -- For a completion, failure or skip, if no two hops of the definition share an identifier: the
    -- event hop ends with the event's outcome, time and result, and the rest of its old state.
    pub evaluate_dag-event_hop :
        lookup event.hop_id r.state.hops
        ≡ some (event_state timestamp o event (lookup event.hop_id state.hops))
    evaluate_dag-event_hop =
        Run-frame event.hop_id run
          (λ p. outcome-ne_pending (some_eq (sym status-after_event_self ∙ p)))
        ∙ lookup-after_event_self
        ∙ ap some (applied_state_lem timestamp o event (lookup event.hop_id state.hops))

    -- For a completion, failure or skip, if no two hops of the definition share an identifier: any
    -- other hop keeps its status, or leaves "pending" for "skipped" or "ready".
    pub evaluate_dag-Moved :
        (id : String)
        → id ≢ event.hop_id
        → Moved (status_of state.hops id) (status_of r.state.hops id)
    evaluate_dag-Moved id n =
        subst (λ x. Moved x (status_of r.state.hops id)) (status-after_event_ne id n)
          (Run-Moved id run)

    -- The change log explains every status of the result, from those of the given state.
    pub evaluate_dag_normal-Explains : Explains (status_of state.hops) r.changes r.state.hops
    evaluate_dag_normal-Explains = Run-Explains run (
        unfold apply_event in
        write-Explains event.hop_id _ _ none _ (Explains-start state.hops) refl)
