-- ===== src/Dag/Conditions.antt =====
-- src/dispatch/dag-evaluator.ts, `evaluateNewlyEligibleConditions`.
use aof.Prelude.{ℕ, Bool, ◌&&◌, Option, none, some, List, [], ◌∷◌, Dict, if◌then◌else◌, every}
use aof.Prelude.Int.{ℤ}
use aof.Json.{Value}
use aof.Workflow.Schema.{Hop, ConditionExpr, HopState}
use aof.Dag.Condition.{TaskMeta, evaluate_condition}
use aof.Dag.Types.{Work}
use aof.Dag.Status.{status_of, is_pending, is_terminal}
use aof.Dag.Cascade.{skip}

unfoldable pub all_terminal : Dict HopState → Hop → Bool
all_terminal hops hop = every (λ dep. is_terminal (status_of hops dep)) hop.depends_on

-- The context is built once, before the loop; the hop states are those of the working copy.
module _ (to_number : Value → Option ℤ) (cond_context : Value) (task : TaskMeta)
    (timestamp : ℕ) where
  holds : ConditionExpr → Work → Bool
  holds c w =
      evaluate_condition to_number c
        (record { context = cond_context; hop_states = w.hops; task = task })

  unfoldable pub evaluate_hop : Hop → Work → Work
  unfolding holds
  evaluate_hop hop w =
      if is_pending (status_of w.hops hop.id) && all_terminal w.hops hop
      then elim hop.condition [
        | none ↦ w
        | some c ↦ if holds c w then w else skip timestamp "condition" hop.id w
      ]
      else w

  unfoldable pub evaluate_newly_eligible_conditions : List Hop → Work → Work
  evaluate_newly_eligible_conditions [] w = w
  evaluate_newly_eligible_conditions (hop ∷ hops) w =
      evaluate_newly_eligible_conditions hops (evaluate_hop hop w)
