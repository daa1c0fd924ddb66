-- ===== src/Dag/Run/Steps.antt =====
-- The step relation, its closure, and the frame of a step.
use aof.Prelude.{ℕ, String, true, false, Option, none, some, lookup, ◌≡◌}
use mathlib.Core.List.{Memᴰ}
use aof.Prelude.Int.{ℤ}
use aof.Json.{Value}
use aof.Workflow.Schema.{Hop, WorkflowDefinition, ConditionExpr, pending, ready}
use aof.Dag.Condition.{TaskMeta, evaluate_condition}
use aof.Dag.Types.{Work}
use aof.Dag.Status.{status_of, with_status, write}
use aof.Dag.Cascade.{find_hop, all_non_success, skip}
use aof.Dag.Conditions.{all_terminal}
use aof.Dag.Ready.{join_satisfied, is_empty}

-- What one evaluation holds fixed.
pub record Setting : Type 0 where
  pub to_number : Value → Option ℤ
  pub definition : WorkflowDefinition
  pub task : TaskMeta
  pub timestamp : ℕ
  pub cond_context : Value

-- Each step takes a pending hop, and says why it may leave that status.
pub data Step (s : Setting) : Work → Work → Type 0 where
  cascade :
      (w : Work) (id : String) (hop : Hop)
      → status_of w.hops id ≡ some pending
      → find_hop s.definition id ≡ some hop
      → all_non_success w.hops hop ≡ true
      → Step s w (skip s.timestamp "cascade" id w)
  condition :
      (w : Work) (hop : Hop) (c : ConditionExpr)
      → Memᴰ hop s.definition.hops
      → status_of w.hops hop.id ≡ some pending
      → all_terminal w.hops hop ≡ true
      → hop.condition ≡ some c
      → evaluate_condition s.to_number c
          (record { context = s.cond_context; hop_states = w.hops; task = s.task })
        ≡ false
      → Step s w (skip s.timestamp "condition" hop.id w)
  join :
      (w : Work) (hop : Hop)
      → Memᴰ hop s.definition.hops
      → status_of w.hops hop.id ≡ some pending
      → is_empty hop.depends_on ≡ false
      → join_satisfied w.hops hop.join_type hop.depends_on ≡ true
      → Step s w (write hop.id (some pending) (with_status ready (lookup hop.id w.hops)) none w)

pub data Run (s : Setting) (w : Work) : Work → Type 0 where
  here : Run s w w
  next : {u v : Work} → Run s w u → Step s u v → Run s w v

pub Run-trans : {s : Setting} {u v w : Work} → Run s u v → Run s v w → Run s u w
Run-trans r here = r
Run-trans r (next q st) = next (Run-trans r q) st
