-- ===== src/Dag/Rejected/Reported.antt =====
-- Which hops a rejection reports as ready, against the statuses that it stores.
use mathlib.Core.List.{Memᴰ}
use aof.Prelude.{
  ℕ, ◌+◌, ◌≤◌, String, true, Option, some, List, [], ◌∷◌, ◌++◌, Dict, lookup, ◌≡◌, ◌≢◌, refl, sym,
  ◌∙◌, ap, arith, subst, includes, ◌⊎◌, inl, inr, text-cases, eq_iff, ne→==_false,
}
use aof.Prelude.Int.{ℤ}
use aof.Json.{Value}
use aof.Workflow.Schema.{Hop, WorkflowDefinition, WorkflowState, HopState, pending, failed, skipped}
use aof.Dag.Condition.{TaskMeta}
use aof.Dag.Types.{ok, Work, HopEvent, rejected, DagEvaluationResult}
use aof.Dag.Status.{status_of, status_of-insert, write, finished, finished_lem}
use aof.Dag.Cascade.{skip}
use aof.Dag.Run.Steps.{Setting}
use aof.Dag.Run.Sound.{cascade_skips-sound}
use aof.Dag.Completion.{finish}
use aof.Dag.Rejection.{
  default_max_rejections, rejections, break_circuit, reject_hop, rejection_ready_hops, add_ready,
}
use aof.Dag.Ready.{determine_ready_hops}
use aof.Dag.Evaluate.{cascade_fuel, dispatch_outcome, evaluate_dag}
use aof.Dag.Normal.Joined.{
  JoinHolds, JoinHolds→join_satisfied, newly_ready_of, determine_ready_complete,
}
use aof.Dag.Rejected.Log.{rejection_work}

includes_snoc :
    (id x : String) (acc : List String)
    → includes id acc ≡ true
    → includes id (acc ++ x ∷ []) ≡ true
includes_snoc id x [] h = cc
includes_snoc id x (y ∷ acc) h = ground (arith, includes_snoc id x acc)

includes-add_ready :
    (hops : Dict HopState) (defs : List Hop) (id : String) (acc : List String)
    → includes id acc ≡ true
    → includes id (add_ready hops defs acc) ≡ true
unfolding add_ready
includes-add_ready hops [] id acc h = h
includes-add_ready hops (hop ∷ defs) id acc h =
    includes-add_ready hops defs id _ (ground (arith, includes_snoc id hop.id acc))

-- What the cascade does to the status of a hop: nothing, or a skip.
abbrev Unmarked : String → Work → Work → Type 0
Unmarked j u v = (status_of v.hops j ≡ status_of u.hops j) ⊎ (status_of v.hops j ≡ some skipped)

Unmarked-trans : (j : String) (u v w : Work) → Unmarked j u v → Unmarked j v w → Unmarked j u w
Unmarked-trans j u v w (inl e) (inl f) = inl (f ∙ e)
Unmarked-trans j u v w (inr e) (inl f) = inr (f ∙ e)
Unmarked-trans j u v w a (inr f) = inr f

skip-Unmarked :
    (timestamp : ℕ) (j id : String) (w : Work) → Unmarked j w (skip timestamp "cascade" id w)
unfolding skip write
skip-Unmarked timestamp j id w = elim (text-cases id j) [
  | inl same ↦ inr (
      status_of-insert id j (finished skipped timestamp (lookup id w.hops)) w.hops
      ∙ rw ((eq_iff id j).1 same) (ap some (finished_lem skipped timestamp (lookup id w.hops))))
  | inr other ↦
      inl (
        status_of-insert id j (finished skipped timestamp (lookup id w.hops)) w.hops
        ∙ rw other refl)
]

-- The circuit breaker fails its hop, and the cascade only skips others.
break_circuit-Unmarked :
    (s : Setting) (fuel n : ℕ) (id j : String) (w v : Work)
    → j ≢ id
    → break_circuit s.definition s.timestamp fuel id n w ≡ ok v
    → Unmarked j w v
unfolding break_circuit write
break_circuit-Unmarked s fuel n id j w v other h =
    let base = finished failed s.timestamp (lookup id w.hops) in
    let broken : HopState = record base { rejection_count = some n } in
    let w1 = write id (status_of w.hops id) broken (some "circuit_breaker") w in
    let first : Unmarked j w w1 =
      inl (status_of-insert id j broken w.hops ∙ rw (ne→==_false id j (λ e. other (sym e))) refl) in
    Unmarked-trans j w w1 v first (
      cascade_skips-sound s (Unmarked j) (λ u. inl refl) (Unmarked-trans j)
        (λ u x hop waits found fails. skip-Unmarked s.timestamp j x u) fuel id w1 v h)

reject_hop_breaks :
    (def : WorkflowDefinition) (timestamp fuel : ℕ) (id : String) (w : Work)
    → default_max_rejections ≤ rejections w.hops id + 1
    → reject_hop def timestamp fuel id w
      ≡ break_circuit def timestamp fuel id (rejections w.hops id + 1) w
unfolding reject_hop
reject_hop_breaks def timestamp fuel id w many = ground arith

-- The third rejection of a hop, or a later one, marks no other hop as ready: a hop of the definition that has
-- predecessors, was pending, and has a join that holds in the new state, is stored as pending, though
-- reported as ready, or as skipped.
pub reject_reports_pending :
    (to_number : Value → Option ℤ) (def : WorkflowDefinition) (task : TaskMeta) (timestamp : ℕ)
    (state : WorkflowState) (event : HopEvent) (r : DagEvaluationResult) (hop : Hop)
    → event.outcome ≡ rejected
    → default_max_rejections ≤ rejections state.hops event.hop_id + 1
    → evaluate_dag to_number def task timestamp state event ≡ ok r
    → Memᴰ hop def.hops
    → hop.id ≢ event.hop_id
    → status_of state.hops hop.id ≡ some pending
    → hop.depends_on ≢ []
    → JoinHolds r.state.hops hop.join_type hop.depends_on
    → ((status_of r.state.hops hop.id ≡ some pending) × (includes hop.id r.ready_hops ≡ true))
      ⊎ (status_of r.state.hops hop.id ≡ some skipped)
unfolding evaluate_dag dispatch_outcome rejection_ready_hops finish
reject_reports_pending to_number def task timestamp state event r hop e many h m other waits
      nonempty holds =
    let (w, done, hops_eq, _, r_eq) =
      rejection_work to_number def task timestamp state event r
        (subst (λ x. dispatch_outcome to_number def task timestamp x state event ≡ ok r) e h) in
    let s : Setting = record {
      to_number = to_number;
      definition = def;
      task = task;
      timestamp = timestamp;
      cond_context = Value.null;
    } in
    let start : Work = record { hops = state.hops; changes = [] } in
    let broke =
      break_circuit-Unmarked s (cascade_fuel state.hops) (rejections state.hops event.hop_id + 1)
        event.hop_id hop.id start w other
        (sym (reject_hop_breaks def timestamp (cascade_fuel state.hops) event.hop_id start many)
          ∙ done) in
    elim broke [
      | inr skips ↦ inr (ap (λ x. status_of x hop.id) hops_eq ∙ skips)
      | inl same ↦
          let p = same ∙ waits in
          let found =
            includes-add_ready w.hops def.hops hop.id (determine_ready_hops w.hops def.hops) (
              determine_ready_complete w.hops hop def.hops m (
                newly_ready_of w.hops hop p nonempty (
                  JoinHolds→join_satisfied w.hops hop.join_type hop.depends_on
                    (subst (λ x. JoinHolds x hop.join_type hop.depends_on) hops_eq holds)))) in
          inl (
            ap (λ x. status_of x hop.id) hops_eq ∙ p,
            ap (λ x. includes hop.id x.ready_hops) r_eq ∙ found,
          )
    ]
