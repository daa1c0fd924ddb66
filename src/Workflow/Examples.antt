-- ===== src/Workflow/Examples.antt =====
-- Examples of the workflow helpers.
use aof.Prelude.{List, All, insert, true, false, some, [], ◌∷◌, lookup, ◌≡◌, refl}
use aof.Json.{chars}
use aof.Workflow.Schema.{WorkflowDefinition}
use aof.Workflow.Validate.Errors.{ValidationError, ids_of, cycle_detected, unreachable_hops}
use aof.Workflow.Validate.Graph.{
  check_cycles, check_reachable, kahn, relax, search, push_unvisited, graph_of, clear_hops,
  add_edge, add_edges, link_hops, keys_where,
}
use aof.Workflow.Validate.Fields.{
  check_unique, check_dependencies, check_hops, check_timeout, check_escalation, check_complexity,
  check_references, is_timeout,
}
use aof.Workflow.Sample.{release_plan_valid}
use aof.Workflow.Validate.{validate_dag, graph_errors, field_errors}
use aof.Workflow.Acyclic.Counts.{Within}
use aof.Workflow.Acyclic.Cycles.{IsAcyclic}
use aof.Workflow.Acyclic.Accepted.{validate_dag_sound, validate_dag_returns}
use aof.Dag.Run.Joins.{IsUnique}
use aof.Dag.Sample.{release_plan, hop}

validate_dag_sound_example :
    IsUnique release_plan.hops
    × All (λ h. Within h.depends_on (ids_of release_plan.hops)) release_plan.hops
    × IsAcyclic release_plan.hops
validate_dag_sound_example = validate_dag_sound release_plan release_plan_valid

abbrev loop_plan : WorkflowDefinition
loop_plan = record {
  name = "loop";
  hops = hop "plan" [] ∷ hop "build" ("test" ∷ []) ∷ hop "test" ("build" ∷ []) ∷ [];
}

loop_plan_refused :
    validate_dag loop_plan
    ≡ some (cycle_detected ("build" ∷ "test" ∷ []) ∷ unreachable_hops ("build" ∷ "test" ∷ []) ∷ [])
unfolding validate_dag graph_errors field_errors check_cycles check_reachable kahn relax search
    push_unvisited graph_of clear_hops add_edge add_edges link_hops keys_where check_unique
    check_dependencies check_hops check_timeout check_escalation check_complexity check_references
    lookup insert
loop_plan_refused = refl

timeouts : (is_timeout "30m" ≡ true) × (is_timeout "m" ≡ false) × (is_timeout "1hd" ≡ false)
unfolding is_timeout chars
timeouts = (refl, refl, refl)

validate_dag_returns_example :
    (errors : List ValidationError) × (validate_dag loop_plan ≡ some errors)
validate_dag_returns_example = validate_dag_returns loop_plan
