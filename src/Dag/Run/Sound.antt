-- ===== src/Dag/Run/Sound.antt =====
-- The cascade, the condition pass and the marking of ready hops are runs of steps.
use mathlib.Core.List.{Memᴰ}
use aof.Prelude.{
  ℕ, zero, suc, String, true, false, Option, some, List, [], ◌∷◌, ◌≡◌, ◌⊎◌, inl, inr, sym, arith,
  subst, All,
}
use aof.Workflow.Schema.{Hop, ConditionExpr, HopStatus, pending}
use aof.Dag.Types.{Result, ok, >>=-eq-ok, ok_eq, Work}
use aof.Dag.Status.{status_of, is_pending}
use aof.Dag.Cascade.{find_hop, all_non_success, skip, cascade_hop, cascade_each, cascade_skips}
use aof.Dag.Condition.{evaluate_condition}
use aof.Dag.Conditions.{evaluate_hop, all_terminal, evaluate_newly_eligible_conditions}
use aof.Dag.Run.Steps.{Setting, Run, cascade, condition, here, next, Run-trans}

pub is_pending_eq : (o : Option HopStatus) → is_pending o ≡ true → o ≡ some pending
is_pending_eq o h = ground arith

module _ (s : Setting) where
  open s use {definition, timestamp, to_number, cond_context, task}

  -- A round either leaves the work as it is, or skips the hop and recurs.
  cascade_hop-cases :
      (recurse : String → Work → Result Work) (id : String) (w : Work) {v : Work}
      → cascade_hop definition timestamp recurse id w ≡ ok v
      → (w ≡ v)
        ⊎ ((hop : Hop) × (is_pending (status_of w.hops id) ≡ true)
            × (find_hop definition id ≡ some hop)
            × (all_non_success w.hops hop ≡ true)
            × (recurse id (skip timestamp "cascade" id w) ≡ ok v))
  unfolding cascade_hop
  cascade_hop-cases recurse id w h = ground arith

  -- A relation that holds of each skip, and along a chain of them, holds of the whole cascade.
  module _ (R : Work → Work → Type 0) (stays : (w : Work) → R w w)
      (chains : (u v w : Work) → R u v → R v w → R u w)
      (skips : (w : Work) (id : String) (hop : Hop)
        → status_of w.hops id ≡ some pending
        → find_hop definition id ≡ some hop
        → all_non_success w.hops hop ≡ true
        → R w (skip timestamp "cascade" id w)) where
    Sound : (String → Work → Result Work) → Type 0
    Sound recurse = (id : String) (w v : Work) → recurse id w ≡ ok v → R w v

    cascade_hop-Sound :
        (recurse : String → Work → Result Work) (id : String) (w v : Work)
        → Sound recurse
        → cascade_hop definition timestamp recurse id w ≡ ok v
        → R w v
    unfolding Sound
    cascade_hop-Sound recurse id w v sound h = elim (cascade_hop-cases recurse id w h) [
      | inl same ↦ subst (R w) same (stays w)
      | inr (hop, waits, found, fails, on) ↦
          chains w (skip timestamp "cascade" id w) v
            (skips w id hop (is_pending_eq _ waits) found fails)
            (sound id (skip timestamp "cascade" id w) v on)
    ]

    cascade_each-Sound :
        (recurse : String → Work → Result Work) (ids : List String) (w v : Work)
        → Sound recurse
        → cascade_each definition timestamp recurse ids w ≡ ok v
        → R w v
    unfolding cascade_each
    cascade_each-Sound recurse [] w v sound h = subst (R w) (ok_eq h) (stays w)
    cascade_each-Sound recurse (id ∷ ids) w v sound h =
        let (u, first, rest) = >>=-eq-ok (cascade_hop definition timestamp recurse id w) _ h in
        chains w u v (cascade_hop-Sound recurse id w u sound first)
          (cascade_each-Sound recurse ids u v sound rest)

    pub cascade_skips-sound :
        (fuel : ℕ) (start : String) (w v : Work)
        → cascade_skips definition timestamp fuel start w ≡ ok v
        → R w v
    unfolding cascade_skips Sound
    cascade_skips-sound zero start w v h = cc
    cascade_skips-sound (suc fuel) start w v h =
        cascade_each-Sound (cascade_skips definition timestamp fuel) _ w v
          (cascade_skips-sound fuel) h

  pub cascade_skips-Run :
      (fuel : ℕ) (start : String) (w v : Work)
      → cascade_skips definition timestamp fuel start w ≡ ok v
      → Run s w v
  cascade_skips-Run =
      cascade_skips-sound (Run s) (λ w. here) (λ u v w r q. Run-trans r q)
        (λ w id hop waits found fails. next here (cascade w id hop waits found fails))

  -- A hop of the condition pass is left alone, or skipped because its condition is false.
  evaluate_hop-cases :
      (hop : Hop) (w : Work)
      → (evaluate_hop to_number cond_context task timestamp hop w ≡ w)
        ⊎ ((c : ConditionExpr) × (is_pending (status_of w.hops hop.id) ≡ true)
            × (all_terminal w.hops hop ≡ true)
            × (hop.condition ≡ some c)
            × (evaluate_condition to_number c
                  (record { context = cond_context; hop_states = w.hops; task = task })
                ≡ false)
            × (evaluate_hop to_number cond_context task timestamp hop w
                ≡ skip timestamp "condition" hop.id w))
  unfolding evaluate_hop
  evaluate_hop-cases hop w = ground arith

  pub evaluate_newly_eligible_conditions-Run :
      (hops : List Hop) (w : Work)
      → All (λ hop. Memᴰ hop definition.hops) hops
      → Run s w (evaluate_newly_eligible_conditions to_number cond_context task timestamp hops w)
  unfolding evaluate_newly_eligible_conditions
  evaluate_newly_eligible_conditions-Run [] w m = here
  evaluate_newly_eligible_conditions-Run (hop ∷ hops) w m =
      Run-trans
        (elim (evaluate_hop-cases hop w) [
          | inl same ↦ subst (Run s w) (sym same) here
          | inr (c, waits, ends, has, fails, e) ↦
              subst (Run s w) (sym e)
                (next here (condition w hop c m.0 (is_pending_eq _ waits) ends has fails))
        ])
        (evaluate_newly_eligible_conditions-Run hops
          (evaluate_hop to_number cond_context task timestamp hop w) m.1)
