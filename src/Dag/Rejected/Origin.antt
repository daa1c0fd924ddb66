-- ===== src/Dag/Rejected/Origin.antt =====
-- The "origin" strategy: the whole workflow starts again.
use mathlib.Core.List.{Memᴰ}
use aof.Prelude.{
  ℕ, ◌+◌, ◌<◌, String, Bool, true, false, Option, none, some, List, [], ◌∷◌, lookup, lookup-insert,
  ◌≡◌, ◌≢◌, refl, sym, ◌∙◌, ap, arith, subst, if◌then◌else◌, ◌==◌, Bool-cases, inl, inr, includes,
  All, All-of_mem, eq_refl,
}
use aof.Prelude.Int.{ℤ}
use aof.Json.{Value}
use aof.Workflow.Schema.{
  Hop, WorkflowDefinition, WorkflowState, HopState, RejectionStrategy, origin, predecessors,
}
use aof.Dag.Condition.{TaskMeta}
use aof.Dag.Types.{
  ok, ◌>>=◌, >>=-eq-ok, ok_eq, Result-cases, Work, HopEvent, rejected, DagEvaluationResult,
}
use aof.Dag.Status.{fresh, write}
use aof.Dag.Cascade.{find_hop}
use aof.Dag.Evaluate.{cascade_fuel, evaluate_rejection, dispatch_outcome, evaluate_dag}
use aof.Dag.Completion.{finish}
use aof.Dag.Rejection.{
  default_max_rejections, rejections, apply_by, apply_strategy, reject_hop, rejection_ready_hops,
  reset_state, reset_origin_hop, reset_all_hops_for_origin,
}
use aof.Dag.Rejected.Log.{initial_status, reset_origin_hop-cases}
use aof.Dag.Run.Joins.{IsUnique, hop_ids}

-- A hop's state after the reset: its first status, and the count on the rejected hop alone.
abbrev pub origin_state : String → ℕ → Hop → HopState
origin_state target n hop = record {
  status = initial_status hop;
  started_at = none;
  completed_at = none;
  agent = none;
  correlation_id = none;
  result = none;
  rejection_count = if hop.id == target then some n else none;
  escalated = none;
}

module _ (target : String) (n : ℕ) where
  lookup-reset_origin_hop :
      (hop : Hop) (w v : Work) (id : String)
      → reset_origin_hop target n hop w ≡ ok v
      → lookup id v.hops
        ≡ (if hop.id == id then some (origin_state target n hop) else lookup id w.hops)
  unfolding write reset_state fresh
  lookup-reset_origin_hop hop w v id e =
      let (prev, found, after) = reset_origin_hop-cases target n hop w e in
      elim after [
        | inl written ↦ ap (λ x. lookup id x.hops) written ∙ lookup-insert hop.id id _ w.hops
        | inr (same, kept) ↦ ap (λ x. lookup id x.hops) kept ∙ lookup-insert hop.id id _ w.hops
      ]

  -- A hop that no definition of the list names keeps its state.
  reset_all_frame :
      (hops : List Hop) (w v : Work) (id : String)
      → reset_all_hops_for_origin target n hops w ≡ ok v
      → includes id (hop_ids hops) ≡ false
      → lookup id v.hops ≡ lookup id w.hops
  unfolding reset_all_hops_for_origin
  reset_all_frame [] w v id e absent = ap (λ x. lookup id x.hops) (sym (ok_eq e))
  reset_all_frame (hop ∷ hops) w v id e absent =
      let (u, first, rest) = >>=-eq-ok (reset_origin_hop target n hop w) _ e in
      let (other, absent') = split absent in
      reset_all_frame hops u v id rest absent' ∙ lookup-reset_origin_hop hop w u id first ∙ rw other
    where
      split :
          includes id (hop_ids (hop ∷ hops)) ≡ false
          → ((hop.id == id) ≡ false) × (includes id (hop_ids hops) ≡ false)
      split h = ground arith

  pub reset_all_lookup :
      (hops : List Hop) (w v : Work) (hop : Hop)
      → reset_all_hops_for_origin target n hops w ≡ ok v
      → IsUnique hops
      → Memᴰ hop hops
      → lookup hop.id v.hops ≡ some (origin_state target n hop)
  unfolding reset_all_hops_for_origin
  reset_all_lookup [] w v hop e u m = elim m [ ]
  reset_all_lookup (g ∷ hops) w v hop e uniq (Memᴰ.head same) =
      let (u, first, rest) = >>=-eq-ok (reset_origin_hop target n g w) _ e in
      subst (λ x. lookup x.id v.hops ≡ some (origin_state target n x)) (sym same)
        (reset_all_frame hops u v g.id rest uniq.0
          ∙ lookup-reset_origin_hop g w u g.id first
          ∙ rw (eq_refl g.id))
  reset_all_lookup (g ∷ hops) w v hop e uniq (Memᴰ.tail m) =
      let (u, first, rest) = >>=-eq-ok (reset_origin_hop target n g w) _ e in
      reset_all_lookup hops u v hop rest uniq.1 m

  reset_origin_hop_returns :
      (hop : Hop) (w : Work)
      → lookup hop.id w.hops ≢ none
      → (v : Work) × (reset_origin_hop target n hop w ≡ ok v)
  unfolding reset_origin_hop
  reset_origin_hop_returns hop w present = elim (Result-cases (reset_origin_hop target n hop w)) [
    | inl e ↦ absurd (present (ground arith))
    | inr (inl e) ↦ absurd (present (ground arith))
    | inr (inr done) ↦ done
  ]

  still_present :
      (hop : Hop) (w v : Work)
      → reset_origin_hop target n hop w ≡ ok v
      → (hops : List Hop) → All (λ g. lookup g.id w.hops ≢ none) hops
      → All (λ g. lookup g.id v.hops ≢ none) hops
  still_present hop w v e [] p = tt
  still_present hop w v e (g ∷ hops) (p, ps) = (
    λ absent. elim (Bool-cases (hop.id == g.id)) [
      | inl same ↦ ground (arith, lookup-reset_origin_hop hop w v g.id e)
      | inr other ↦ p (ground (arith, lookup-reset_origin_hop hop w v g.id e))
    ],
    still_present hop w v e hops ps,
  )

  -- The reset returns if the state holds every hop of the definition.
  pub reset_origin_returns :
      (hops : List Hop) (w : Work)
      → All (λ hop. lookup hop.id w.hops ≢ none) hops
      → (v : Work) × (reset_all_hops_for_origin target n hops w ≡ ok v)
  unfolding reset_all_hops_for_origin
  reset_origin_returns [] w present = (w, refl)
  reset_origin_returns (hop ∷ hops) w (p, ps) =
      let (u, first) = reset_origin_hop_returns hop w p in
      let (v, rest) = reset_origin_returns hops u (still_present hop w u first hops ps) in
      (v, rw (first, ◌>>=◌) rest)

-- Whether a hop's strategy is "origin", which is also the default.
abbrev pub by_origin : Option RejectionStrategy → Bool
by_origin none = true
by_origin (some origin) = true
by_origin (some predecessors) = false

apply_by_origin :
    (by : Option RejectionStrategy) (def : WorkflowDefinition) (hop : Hop) (n : ℕ) (w : Work)
    → by_origin by ≡ true
    → apply_by by def hop n w ≡ reset_all_hops_for_origin hop.id n def.hops w
unfolding apply_by
apply_by_origin by def hop n w h = ground arith

module _ (to_number : Value → Option ℤ) (def : WorkflowDefinition) (task : TaskMeta) (timestamp : ℕ)
    (state : WorkflowState) (event : HopEvent) (hop : Hop) where
  -- The new count of the rejected hop.
  abbrev pub new_count : ℕ
  new_count = rejections state.hops event.hop_id + 1

  abbrev start : Work
  start = record { hops = state.hops; changes = [] }

  reject_hop_origin :
      (fuel : ℕ)
      → find_hop def event.hop_id ≡ some hop
      → by_origin hop.rejection_strategy ≡ true
      → new_count < default_max_rejections
      → reject_hop def timestamp fuel event.hop_id start
        ≡ reset_all_hops_for_origin hop.id new_count def.hops start
  unfolding reject_hop apply_strategy
  reject_hop_origin fuel found by few =
      ground (arith, apply_by_origin hop.rejection_strategy def hop new_count start)

  finish_hops : (ids : List String) (w : Work) → (finish state timestamp ids w).state.hops ≡ w.hops
  unfolding finish
  finish_hops ids w = ground arith

  origin_result :
      event.outcome ≡ rejected
      → (w : Work) → reject_hop def timestamp (cascade_fuel state.hops) event.hop_id start ≡ ok w
      → evaluate_dag to_number def task timestamp state event
        ≡ ok (finish state timestamp (rejection_ready_hops w.hops def.hops) w)
  unfolding evaluate_dag dispatch_outcome evaluate_rejection
  origin_result e w done = rw (e, dispatch_outcome) (rw (done, ◌>>=◌))

  -- A rejection of a hop whose strategy is "origin", or that has none, below the limit, returns if no
  -- two hops share an identifier and the state holds every hop of the definition, and every hop of
  -- the definition starts again, roots as ready and the others as pending, with nothing kept but
  -- the rejected hop's count, which is one more than it was.
  pub reject-origin :
      event.outcome ≡ rejected
      → IsUnique def.hops
      → All (λ g. lookup g.id state.hops ≢ none) def.hops
      → find_hop def event.hop_id ≡ some hop
      → by_origin hop.rejection_strategy ≡ true
      → new_count < default_max_rejections
      → (r : DagEvaluationResult) × (evaluate_dag to_number def task timestamp state event ≡ ok r)
        × All (λ g. lookup g.id r.state.hops ≡ some (origin_state hop.id new_count g)) def.hops
  reject-origin e unique present found by few =
      let (w, reset) = reset_origin_returns hop.id new_count def.hops start present in
      let done = reject_hop_origin (cascade_fuel state.hops) found by few ∙ reset in
      (
        finish state timestamp (rejection_ready_hops w.hops def.hops) w,
        origin_result e w done,
        All-of_mem def.hops λ g m.
            ap (lookup g.id) (finish_hops _ w)
            ∙ reset_all_lookup hop.id new_count def.hops start w g reset unique m,
      )
