-- ===== src/Workflow/Validate.antt =====
-- src/schemas/workflow-dag.ts, `validateDAG`.
pub mod Errors
pub mod Graph
pub mod Fields
use aof.Prelude.{
  ℕ, zero, suc, ◌+◌, ◌-◌, ◌*◌, String, Bool, true, false, not, ◌&&◌, ◌||◌, Option, none, some, List,
  [], ◌∷◌, ◌++◌, Dict, lookup, insert, includes, keep, every, if◌then◌else◌, ◌==◌, eqb, ltb, leb,
  length,
}
use aof.Workflow.Schema.{Hop, WorkflowDefinition, ConditionExpr}
use aof.Workflow.Validate.Errors.{
  ValidationError, duplicate_hop, missing_dependency, no_root_hops, cycle_detected,
  unreachable_hops, invalid_timeout, empty_escalation, condition_too_deep, condition_too_large,
  missing_reference, ids_of,
}
use aof.Workflow.Validate.Graph.{root_hops, check_cycles, check_reachable}
use aof.Workflow.Validate.Fields.{
  check_unique, check_dependencies, check_hops, check_timeout, check_escalation, check_complexity,
  check_references,
}

abbrev pub check_roots : List Hop → List ValidationError
check_roots hops = if eqb (length (root_hops hops)) 0 then no_root_hops ∷ [] else []

-- The errors of the graph, with those of the two searches.
unfoldable pub graph_errors :
    List Hop → List ValidationError → List ValidationError → List ValidationError
unfolding check_unique check_dependencies check_hops
graph_errors hops cycles unreachable =
    check_unique [] hops
    ++ check_hops (λ h. check_dependencies (ids_of hops) h.id h.depends_on) hops
    ++ check_roots hops
    ++ cycles
    ++ unreachable

unfoldable pub field_errors : List Hop → List ValidationError
unfolding check_hops check_timeout check_escalation check_complexity check_references
field_errors hops =
    check_hops check_timeout hops
    ++ check_hops check_escalation hops
    ++ check_hops check_complexity hops
    ++ check_hops (check_references (ids_of hops)) hops

-- `none` is out of fuel, of one of the two searches.
unfoldable pub validate_dag : WorkflowDefinition → Option (List ValidationError)
unfolding graph_errors field_errors check_cycles check_reachable
validate_dag def = elim (check_cycles def.hops) [
  | none ↦ none
  | some cycles ↦ elim (check_reachable def.hops) [
    | none ↦ none
    | some unreachable ↦ some (graph_errors def.hops cycles unreachable ++ field_errors def.hops)
  ]
]
