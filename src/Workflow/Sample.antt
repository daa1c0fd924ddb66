-- ===== src/Workflow/Sample.antt =====
-- A sample workflow passes the validation.
use aof.Prelude.{insert, some, [], lookup, ◌≡◌, refl}
use aof.Workflow.Validate.Graph.{
  check_cycles, check_reachable, kahn, relax, search, push_unvisited, graph_of, clear_hops,
  add_edge, add_edges, link_hops, keys_where,
}
use aof.Workflow.Validate.Fields.{
  check_unique, check_dependencies, check_hops, check_timeout, check_escalation, check_complexity,
  check_references,
}
use aof.Workflow.Validate.{validate_dag, graph_errors, field_errors}
use aof.Dag.Sample.{release_plan}

pub release_plan_valid : validate_dag release_plan ≡ some []
unfolding validate_dag graph_errors field_errors check_cycles check_reachable kahn relax search
    push_unvisited graph_of clear_hops add_edge add_edges link_hops keys_where check_unique
    check_dependencies check_hops check_timeout check_escalation check_complexity check_references
    lookup insert
release_plan_valid = refl
