-- ===== src/Dag/Normal/Settled.antt =====
-- The parts of `evaluate_normal`: the work after the event, after the cascade, after the conditions,
-- and at the end.
use mathlib.Core.List.{Memᴰ}
use aof.Prelude.{
  ℕ, suc, String, Option, List, [], Dict, ◌≡◌, refl, arith, subst, All, All-of_mem, length,
}
use aof.Prelude.Int.{ℤ}
use aof.Json.{Value}
use aof.Workflow.Schema.{WorkflowDefinition, WorkflowState, HopStatus, HopState}
use aof.Dag.Condition.{TaskMeta, build_condition_context}
use aof.Dag.Types.{ok, ◌>>=◌, >>=-eq-ok, ok_eq, HopEvent, Work, DagEvaluationResult}
use aof.Dag.Conditions.{evaluate_newly_eligible_conditions}
use aof.Dag.Ready.{determine_ready_hops, mark_ready}
use aof.Dag.Completion.{finish, check_dag_completion}
use aof.Dag.Evaluate.{apply_event, cascade_event, cascade_fuel, settle, evaluate_normal}
use aof.Dag.Run.Steps.{Setting, Run, here, Run-trans}
use aof.Dag.Run.Sound.{cascade_skips-Run, evaluate_newly_eligible_conditions-Run}
use aof.Dag.Run.Joins.{IsUnique, Agree-refl, mark_ready-Run}
use aof.Dag.Run.Total.{cascade_skips-Ends, pending_count-le-length}

module _ (to_number : Value → Option ℤ) (def : WorkflowDefinition) (task : TaskMeta)
    (timestamp : ℕ) where
  -- What the steps of one evaluation hold fixed; the context is that of the cascaded hops.
  abbrev pub setting : Dict HopState → Setting
  setting hops = record {
    to_number = to_number;
    definition = def;
    task = task;
    timestamp = timestamp;
    cond_context = build_condition_context hops task;
  }

  -- The working copy after the event itself.
  abbrev pub after_event : WorkflowState → HopStatus → HopEvent → Work
  after_event state outcome event =
      apply_event timestamp outcome event (record { hops = state.hops; changes = [] })

  abbrev pub judged : Work → Work
  judged w =
      evaluate_newly_eligible_conditions to_number (build_condition_context w.hops task) task
        timestamp def.hops w

  -- A successful evaluation: a cascade, the condition pass, and the marking.
  pub record IsSettled (state : WorkflowState) (outcome : HopStatus) (event : HopEvent)
      (r : DagEvaluationResult) : Type 0 where
    pub cascaded : Work
    pub cascades :
        cascade_event to_number def task timestamp outcome event.hop_id
          (after_event state outcome event)
        ≡ ok cascaded
    pub hops_eq :
        r.state.hops
        ≡ (mark_ready (determine_ready_hops (judged cascaded).hops def.hops) (judged cascaded)).hops
    pub changes_eq :
        r.changes
        ≡ (mark_ready
            (determine_ready_hops (judged cascaded).hops def.hops)
            (judged cascaded)).changes
    pub ready_eq : r.ready_hops ≡ determine_ready_hops (judged cascaded).hops def.hops
    pub status_eq : r.dag_status ≡ check_dag_completion r.state.hops

  finish_fields :
      (state : WorkflowState) (ids : List String) (w : Work)
      → let r = finish state timestamp ids w in
        (r.state.hops ≡ w.hops)
        × (r.changes ≡ w.changes)
        × (r.ready_hops ≡ ids)
        × (r.dag_status ≡ check_dag_completion r.state.hops)
  unfolding finish
  finish_fields state ids w = ground arith

  settled_of_finish :
      (state : WorkflowState) (outcome : HopStatus) (event : HopEvent) (w : Work)
      → cascade_event to_number def task timestamp outcome event.hop_id
          (after_event state outcome event)
        ≡ ok w
      → IsSettled state outcome event (
          finish state timestamp
            (settle to_number def task timestamp w).1
            (settle to_number def task timestamp w).0)
  unfolding settle
  settled_of_finish state outcome event w e =
      let (hops_eq, changes_eq, ready_eq, status_eq) = finish_fields state _ _ in
      record {
        cascaded = w;
        cascades = e;
        hops_eq = hops_eq;
        changes_eq = changes_eq;
        ready_eq = ready_eq;
        status_eq = status_eq;
      }

  pub evaluate_normal-IsSettled :
      (state : WorkflowState) (outcome : HopStatus) (event : HopEvent) (r : DagEvaluationResult)
      → evaluate_normal to_number def task timestamp state outcome event ≡ ok r
      → IsSettled state outcome event r
  unfolding evaluate_normal
  evaluate_normal-IsSettled state outcome event r h =
      let (w, cascades, ends) =
        >>=-eq-ok
          (cascade_event to_number def task timestamp outcome event.hop_id
            (after_event state outcome event))
          _ h in
      subst (IsSettled state outcome event) (ok_eq ends)
        (settled_of_finish state outcome event w cascades)

  cascade_event-Run :
      (c : Value) (outcome : HopStatus) (id : String) (w v : Work)
      → cascade_event to_number def task timestamp outcome id w ≡ ok v
      → Run
          (record {
            to_number = to_number;
            definition = def;
            task = task;
            timestamp = timestamp;
            cond_context = c;
          })
          w
          v
  unfolding cascade_event
  cascade_event-Run c HopStatus.complete id w v h = subst (Run _ w) (ok_eq h) here
  cascade_event-Run c _ id w v h = cascade_skips-Run _ (cascade_fuel w.hops) id w v h

  -- The evaluation is a run of steps from the work after the event.
  pub IsSettled-Run :
      {state : WorkflowState} {outcome : HopStatus} {event : HopEvent} {r : DagEvaluationResult}
      → IsUnique def.hops
      → (t : IsSettled state outcome event r)
      → Run
          (setting t.cascaded.hops)
          (after_event state outcome event)
          (record { hops = r.state.hops; changes = r.changes })
  IsSettled-Run {state} {outcome} {event} unique t =
      rw (t.hops_eq, t.changes_eq)
        (Run-trans
          (Run-trans
            (cascade_event-Run _ outcome event.hop_id (after_event state outcome event) t.cascaded
              t.cascades)
            (evaluate_newly_eligible_conditions-Run (setting t.cascaded.hops) def.hops t.cascaded
              listed))
          (mark_ready-Run (setting t.cascaded.hops) (judged t.cascaded).hops def.hops
            (judged t.cascaded) listed unique (Agree-refl _) (All-of_mem def.hops (λ _ _. refl))))
    where
      listed : All (λ hop. Memᴰ hop def.hops) def.hops
      listed = All-of_mem def.hops (λ _ m. m)

  cascade_event_ends :
      (outcome : HopStatus) (id : String) (w : Work)
      → (v : Work) × (cascade_event to_number def task timestamp outcome id w ≡ ok v)
  unfolding cascade_event cascade_fuel
  cascade_event_ends HopStatus.complete id w = (w, refl)
  cascade_event_ends _ id w =
      let (v, e, fewer) =
        cascade_skips-Ends def timestamp (suc (length w.hops)) id w
          (omega (arith, pending_count-le-length w.hops)) in
      (v, e)

  -- An evaluation of a completion, failure or skip always returns.
  pub evaluate_normal_returns :
      (state : WorkflowState) (outcome : HopStatus) (event : HopEvent)
      → (r : DagEvaluationResult) × (evaluate_normal to_number def task timestamp state outcome
            event
          ≡ ok r)
  unfolding evaluate_normal
  evaluate_normal_returns state outcome event =
      let (w, e) = cascade_event_ends outcome event.hop_id (after_event state outcome event) in
      (
        finish state timestamp (settle to_number def task timestamp w).1
            (settle to_number def task timestamp w).0,
        rw (e, ◌>>=◌) refl,
      )
