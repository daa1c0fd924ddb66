-- ===== src/Dag/Rejected/Log.antt =====
-- The change log of an evaluation, rejections included.
use aof.Prelude.{
  ℕ, ◌+◌, String, Bool, true, Option, none, some, List, [], ◌∷◌, Dict, lookup, insert, ◌≡◌, refl,
  sym, ◌∙◌, ap, arith, subst, if◌then◌else◌, ◌==◌, Bool-cases, Option-cases, ◌⊎◌, inl, inr, leb,
}
use aof.Prelude.Int.{ℤ}
use aof.Json.{Value}
use aof.Workflow.Schema.{
  Hop, WorkflowDefinition, WorkflowState, HopStatus, pending, ready, complete, failed, skipped,
  HopState, RejectionStrategy, origin, predecessors,
}
use aof.Dag.Condition.{TaskMeta}
use aof.Dag.Types.{ok, >>=-eq-ok, ok_eq, HopEvent, Outcome, rejected, Work, DagEvaluationResult}
use aof.Dag.Status.{status_of, write}
use aof.Dag.Log.{Statuses, Explains, Explains-start, write-Explains, insert-Explains}
use aof.Dag.Cascade.{find_hop}
use aof.Dag.Ready.{is_empty}
use aof.Dag.Completion.{finish}
use aof.Dag.Rejection.{
  same_status, reset_state, reset_origin_hop, reset_all_hops_for_origin, predecessor_status,
  reset_predecessor_hop, reset_each, reset_predecessor_hops, rejections, break_circuit, apply_by,
  apply_strategy, reject_hop, rejection_ready_hops,
}
use aof.Dag.Evaluate.{cascade_fuel, evaluate_rejection, dispatch_outcome, evaluate_dag}
use aof.Dag.Run.Steps.{Setting}
use aof.Dag.Run.Log.{Run-Explains}
use aof.Dag.Run.Sound.{cascade_skips-Run}
use aof.Dag.Run.Joins.{IsUnique}
use aof.Dag.Normal.Trace.{outcome_status, evaluate_dag_normal-Explains}

same_status_sound : (a b : HopStatus) → same_status a b ≡ true → a ≡ b
same_status_sound a b h = ground arith

status_of_found :
    (hops : Dict HopState) (id : String) {h : HopState}
    → lookup id hops ≡ some h
    → status_of hops id ≡ some h.status
unfolding status_of
status_of_found hops id e = rw (e, status_of)

-- The status that a reset gives a hop under the "origin" strategy.
abbrev pub initial_status : Hop → HopStatus
initial_status hop = if is_empty hop.depends_on then ready else pending

-- One round of the reset either logs the change, or leaves the status as it was.
pub reset_origin_hop-cases :
    (id : String) (n : ℕ) (hop : Hop) (w : Work) {v : Work}
    → reset_origin_hop id n hop w ≡ ok v
    → let h = reset_state (initial_status hop) (hop.id == id) n in
      (prev : HopState) × (lookup hop.id w.hops ≡ some prev)
      × ((v ≡ write hop.id (some prev.status) h (some "rejection_cascade_origin") w)
          ⊎ ((same_status prev.status (initial_status hop) ≡ true)
              × (v ≡ record { hops = insert hop.id h w.hops; changes = w.changes })))
unfolding reset_origin_hop
reset_origin_hop-cases id n hop w e = ground arith

pub reset_state_lem : (s : HopStatus) (b : Bool) (n : ℕ) → (reset_state s b n).status ≡ s
unfolding reset_state
reset_state_lem s b n = refl

pub reset_predecessor_hop-cases :
    (def : WorkflowDefinition) (target : String) (n : ℕ) (set : List String) (id : String)
    (w : Work) {v : Work}
    → reset_predecessor_hop def target n set id w ≡ ok v
    → (prev : HopState) × (hop : Hop) × (lookup id w.hops ≡ some prev)
      × (find_hop def id ≡ some hop)
      × (v
          ≡ write id
              (some prev.status)
              (reset_state (predecessor_status def target n set w.hops hop) (id == target) n)
              (some "rejection_cascade_predecessors")
              w)
unfolding reset_predecessor_hop
reset_predecessor_hop-cases def target n set id w e = ground arith

module _ (f : Statuses) where
  -- The work's log explains its statuses, from `f` on.
  abbrev Logged : Work → Type 0
  Logged w = Explains f w.changes w.hops

  reset_origin_hop-Logged :
      (id : String) (n : ℕ) (hop : Hop) (w v : Work)
      → reset_origin_hop id n hop w ≡ ok v
      → Logged w
      → Logged v
  reset_origin_hop-Logged id n hop w v e ex =
      let h = reset_state (initial_status hop) (hop.id == id) n in
      let (prev, found, after) = reset_origin_hop-cases id n hop w e in
      let at = status_of_found w.hops hop.id found in
      elim after [
        | inl written ↦ subst Logged (sym written) (
            write-Explains hop.id (some prev.status) h (some "rejection_cascade_origin") w ex
              (sym at))
        | inr (same, kept) ↦ subst Logged (sym kept) (
            insert-Explains hop.id h w.changes w.hops ex (
              ap some (
                reset_state_lem (initial_status hop) (hop.id == id) n
                ∙ sym (same_status_sound prev.status (initial_status hop) same))
              ∙ sym at))
      ]

  reset_all-Logged :
      (id : String) (n : ℕ) (hops : List Hop) (w v : Work)
      → reset_all_hops_for_origin id n hops w ≡ ok v
      → Logged w
      → Logged v
  unfolding reset_all_hops_for_origin
  reset_all-Logged id n [] w v e ex = subst Logged (ok_eq e) ex
  reset_all-Logged id n (hop ∷ hops) w v e ex =
      let (u, first, rest) = >>=-eq-ok (reset_origin_hop id n hop w) _ e in
      reset_all-Logged id n hops u v rest (reset_origin_hop-Logged id n hop w u first ex)

  reset_each-Logged :
      (def : WorkflowDefinition) (id : String) (n : ℕ) (set ids : List String) (w v : Work)
      → reset_each def id n set ids w ≡ ok v
      → Logged w
      → Logged v
  unfolding reset_each
  reset_each-Logged def id n set [] w v e ex = subst Logged (ok_eq e) ex
  reset_each-Logged def id n set (x ∷ ids) w v e ex =
      let (u, first, rest) = >>=-eq-ok (reset_predecessor_hop def id n set x w) _ e in
      let (prev, hop, found, _, written) = reset_predecessor_hop-cases def id n set x w first in
      reset_each-Logged def id n set ids u v rest (
        subst Logged (sym written) (
          write-Explains x (some prev.status) _ (some "rejection_cascade_predecessors") w ex
            (sym (status_of_found w.hops x found))))

  apply_by-Logged :
      (by : Option RejectionStrategy) (def : WorkflowDefinition) (hop : Hop) (n : ℕ) (w v : Work)
      → apply_by by def hop n w ≡ ok v
      → Logged w
      → Logged v
  unfolding apply_by reset_predecessor_hops
  apply_by-Logged none def hop n w v e ex = reset_all-Logged hop.id n def.hops w v e ex
  apply_by-Logged (some origin) def hop n w v e ex = reset_all-Logged hop.id n def.hops w v e ex
  apply_by-Logged (some predecessors) def hop n w v e ex =
      reset_each-Logged def hop.id n _ _ w v e ex

  break_circuit-Logged :
      (s : Setting) (fuel : ℕ) (id : String) (n : ℕ) (w v : Work)
      → break_circuit s.definition s.timestamp fuel id n w ≡ ok v
      → Logged w
      → Logged v
  unfolding break_circuit
  break_circuit-Logged s fuel id n w v e ex =
      Run-Explains (cascade_skips-Run s fuel id _ v e)
        (write-Explains id (status_of w.hops id) _ (some "circuit_breaker") w ex refl)

  reject_hop-Logged :
      (s : Setting) (fuel : ℕ) (id : String) (w v : Work)
      → reject_hop s.definition s.timestamp fuel id w ≡ ok v
      → Logged w
      → Logged v
  unfolding reject_hop apply_strategy
  reject_hop-Logged s fuel id w v e ex =
      let n = rejections w.hops id + 1 in
      elim (Bool-cases (leb 3 n)) [
        | inl stop ↦ break_circuit-Logged s fuel id n w v (ground arith) ex
        | inr on ↦ elim (Option-cases (find_hop s.definition id)) [
          | inl missing ↦ ground arith
          | inr (hop, found) ↦
              apply_by-Logged hop.rejection_strategy s.definition hop n w v (ground arith) ex
        ]
      ]

module _ (to_number : Value → Option ℤ) (def : WorkflowDefinition) (task : TaskMeta) (timestamp : ℕ)
    (state : WorkflowState) (event : HopEvent) (r : DagEvaluationResult) where
  finish_log :
      (ids : List String) (w : Work)
      → finish state timestamp ids w ≡ r
      → (r.state.hops ≡ w.hops) × (r.changes ≡ w.changes)
  unfolding finish
  finish_log ids w e = ground arith

  abbrev evaluation : Setting
  evaluation = record {
    to_number = to_number;
    definition = def;
    task = task;
    timestamp = timestamp;
    cond_context = Value.null;
  }

  -- The work of a rejection, and what the result shows of it.
  pub rejection_work :
      evaluate_rejection to_number def task timestamp state event ≡ ok r
      → (w : Work) × (reject_hop def timestamp
            (cascade_fuel state.hops)
            event.hop_id
            (record { hops = state.hops; changes = [] })
          ≡ ok w)
        × (r.state.hops ≡ w.hops)
        × (r.changes ≡ w.changes)
        × (r ≡ finish state timestamp (rejection_ready_hops w.hops def.hops) w)
  unfolding evaluate_rejection
  rejection_work h =
      let (w, done, e) =
        >>=-eq-ok
          (reject_hop def timestamp (cascade_fuel state.hops) event.hop_id
            (record { hops = state.hops; changes = [] }))
          _ h in
      let (hops_eq, changes_eq) = finish_log _ w (ok_eq e) in
      (w, done, hops_eq, changes_eq, sym (ok_eq e))

  rejection-Explains :
      evaluate_rejection to_number def task timestamp state event ≡ ok r
      → Explains (status_of state.hops) r.changes r.state.hops
  rejection-Explains h =
      let (w, done, hops_eq, changes_eq, _) = rejection_work h in
      subst (λ m. Explains (status_of state.hops) r.changes m) (sym hops_eq)
        (subst (λ cs. Explains (status_of state.hops) cs w.hops) (sym changes_eq)
          (reject_hop-Logged (status_of state.hops) evaluation _ event.hop_id _ w done
            (Explains-start state.hops)))

  Explains-by :
      (x : Outcome)
      → x ≡ event.outcome
      → IsUnique def.hops
      → evaluate_dag to_number def task timestamp state event ≡ ok r
      → Explains (status_of state.hops) r.changes r.state.hops
  unfolding evaluate_dag dispatch_outcome
  Explains-by rejected e u h =
      rejection-Explains
        (subst (λ x. dispatch_outcome to_number def task timestamp x state event ≡ ok r) (sym e) h)
  Explains-by Outcome.complete e u h =
      evaluate_dag_normal-Explains to_number def task timestamp state event complete r u
        (ap outcome_status (sym e)) h
  Explains-by Outcome.failed e u h =
      evaluate_dag_normal-Explains to_number def task timestamp state event failed r u
        (ap outcome_status (sym e)) h
  Explains-by Outcome.skipped e u h =
      evaluate_dag_normal-Explains to_number def task timestamp state event skipped r u
        (ap outcome_status (sym e)) h

  -- For any event, if no two hops of the definition share an identifier: each entry of the change
  -- log names the status that its hop has at that point, and the log, replayed on the statuses
  -- of the given state, gives the status of every hop of the new state.
  pub evaluate_dag-Explains :
      IsUnique def.hops
      → evaluate_dag to_number def task timestamp state event ≡ ok r
      → Explains (status_of state.hops) r.changes r.state.hops
  evaluate_dag-Explains u h = Explains-by event.outcome refl u h
