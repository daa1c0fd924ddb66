-- ===== src/Dag/Rejected/Breaker.antt =====
-- The circuit breaker: at the limit a rejection fails the hop for good.
use aof.Prelude.{
  refl, none, ℕ, ◌+◌, ◌≤◌, String, Option, some, List, [], lookup, lookup-insert_self, ◌≡◌, ◌∙◌, ap,
  arith,
}
use aof.Prelude.Int.{ℤ}
use aof.Json.{Value}
use aof.Workflow.Schema.{WorkflowDefinition, WorkflowState, failed, HopState}
use aof.Dag.Condition.{TaskMeta}
use aof.Dag.Types.{ok, ◌>>=◌, Work, HopEvent, rejected, DagEvaluationResult}
use aof.Dag.Status.{fresh, with_status, status_of, finished, write, finished_lem}
use aof.Dag.Cascade.{cascade_skips}
use aof.Dag.Completion.{finish}
use aof.Dag.Evaluate.{cascade_fuel, evaluate_rejection, dispatch_outcome, evaluate_dag}
use aof.Dag.Rejection.{
  default_max_rejections, rejections, break_circuit, reject_hop, rejection_ready_hops,
}
use aof.Dag.Run.Steps.{Setting}
use aof.Dag.Run.Frame.{Run-frame}
use aof.Dag.Run.Sound.{cascade_skips-Run}
use aof.Dag.Run.Total.{
  cascade_skips-Ends, pending_count, pending_count-le-length, pending_count-insert,
}

-- The hop's state as the breaker builds it.
abbrev failed_state : ℕ → ℕ → Option HopState → HopState
failed_state timestamp n old =
    let base = finished failed timestamp old in record base { rejection_count = some n }

-- The hop that the breaker fails: its old state with the status, the time and the new count.
abbrev pub broken_state : ℕ → ℕ → Option HopState → HopState
broken_state timestamp n none = record {
  status = failed;
  started_at = none;
  completed_at = some timestamp;
  agent = none;
  correlation_id = none;
  result = none;
  rejection_count = some n;
  escalated = none;
}
broken_state timestamp n (some old) = record old {
  status = failed;
  completed_at = some timestamp;
  rejection_count = some n;
}

failed_state_lem :
    (timestamp n : ℕ) (old : Option HopState)
    → failed_state timestamp n old ≡ broken_state timestamp n old
unfolding finished with_status fresh
failed_state_lem timestamp n none = refl
failed_state_lem timestamp n (some old) = refl

module _ (to_number : Value → Option ℤ) (def : WorkflowDefinition) (task : TaskMeta) (timestamp : ℕ)
    (state : WorkflowState) (event : HopEvent) where
  abbrev count : ℕ
  count = rejections state.hops event.hop_id + 1

  abbrev start : Work
  start = record { hops = state.hops; changes = [] }

  abbrev failed_work : Work
  failed_work =
      write event.hop_id (status_of state.hops event.hop_id)
        (failed_state timestamp count (lookup event.hop_id state.hops)) (some "circuit_breaker")
        start

  reject_hop_breaks :
      (fuel : ℕ)
      → default_max_rejections ≤ count
      → reject_hop def timestamp fuel event.hop_id start
        ≡ cascade_skips def timestamp fuel event.hop_id failed_work
  unfolding reject_hop break_circuit
  reject_hop_breaks fuel many = ground arith

  abbrev evaluation : Setting
  evaluation = record {
    to_number = to_number;
    definition = def;
    task = task;
    timestamp = timestamp;
    cond_context = Value.null;
  }

  lookup-failed_work :
      lookup event.hop_id failed_work.hops
      ≡ some (failed_state timestamp count (lookup event.hop_id state.hops))
  unfolding write
  lookup-failed_work = lookup-insert_self event.hop_id _ state.hops

  status-failed_work : status_of failed_work.hops event.hop_id ≡ some failed
  unfolding status_of
  status-failed_work = rw (
    lookup-failed_work,
    status_of,
    finished_lem failed timestamp (lookup event.hop_id state.hops),
  )

  pending-failed_work : pending_count failed_work.hops ≤ pending_count state.hops
  unfolding write
  pending-failed_work =
      pending_count-insert event.hop_id _ state.hops
        (rw (finished_lem failed timestamp (lookup event.hop_id state.hops)))

  breaker_result :
      event.outcome ≡ rejected
      → (w : Work) → reject_hop def timestamp (cascade_fuel state.hops) event.hop_id start ≡ ok w
      → evaluate_dag to_number def task timestamp state event
        ≡ ok (finish state timestamp (rejection_ready_hops w.hops def.hops) w)
  unfolding evaluate_dag dispatch_outcome evaluate_rejection
  breaker_result e w done = rw (e, dispatch_outcome) (rw (done, ◌>>=◌))

  finish_hops : (ids : List String) (w : Work) → (finish state timestamp ids w).state.hops ≡ w.hops
  unfolding finish
  finish_hops ids w = ground arith

  -- From the third rejection of a hop on, an evaluation returns for any definition and state, and
  -- the hop has failed, with the new count and the rest of its old state.
  pub reject-breaker :
      event.outcome ≡ rejected
      → default_max_rejections ≤ count
      → (r : DagEvaluationResult) × (evaluate_dag to_number def task timestamp state event ≡ ok r)
        × (lookup event.hop_id r.state.hops
            ≡ some (broken_state timestamp count (lookup event.hop_id state.hops)))
  unfolding cascade_fuel
  reject-breaker e many =
      let (w, cascades, _) =
        cascade_skips-Ends def timestamp (cascade_fuel state.hops) event.hop_id failed_work
          (omega (arith, pending-failed_work, pending_count-le-length state.hops)) in
      let done = reject_hop_breaks (cascade_fuel state.hops) many ∙ cascades in
      (
        finish state timestamp (rejection_ready_hops w.hops def.hops) w,
        breaker_result e w done,
        ap (lookup event.hop_id) (finish_hops _ w)
            ∙ Run-frame event.hop_id
                (cascade_skips-Run evaluation _ event.hop_id failed_work w cascades)
                (λ p. cc status-failed_work)
            ∙ lookup-failed_work
            ∙ ap some (failed_state_lem timestamp count (lookup event.hop_id state.hops)),
      )
