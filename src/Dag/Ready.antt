-- ===== src/Dag/Ready.antt =====
-- src/dispatch/dag-evaluator.ts, `determineReadyHops` and the loop that marks its result.
use aof.Prelude.{
  String, Bool, true, false, not, ◌&&◌, none, some, List, [], ◌∷◌, Dict, lookup, if◌then◌else◌,
  every, any_of,
}
use aof.Workflow.Schema.{Hop, JoinType, all, any, HopState, pending, ready}
use aof.Dag.Types.{Work}
use aof.Dag.Status.{status_of, is_pending, is_complete, is_satisfied, with_status, write}

-- The join of a hop, over its predecessors.
unfoldable pub join_satisfied : Dict HopState → JoinType → List String → Bool
join_satisfied hops any deps = any_of (λ dep. is_complete (status_of hops dep)) deps
join_satisfied hops all deps = every (λ dep. is_satisfied (status_of hops dep)) deps

abbrev pub is_empty : List String → Bool
is_empty [] = true
is_empty (_ ∷ _) = false

unfoldable pub newly_ready : Dict HopState → Hop → Bool
newly_ready hops hop =
    is_pending (status_of hops hop.id)
    && not (is_empty hop.depends_on)
    && join_satisfied hops hop.join_type hop.depends_on

unfoldable pub determine_ready_hops : Dict HopState → List Hop → List String
determine_ready_hops hops [] = []
determine_ready_hops hops (hop ∷ rest) =
    let others = determine_ready_hops hops rest in
    if newly_ready hops hop then hop.id ∷ others else others

unfoldable pub mark_ready : List String → Work → Work
mark_ready [] w = w
mark_ready (id ∷ ids) w =
    mark_ready ids (write id (some pending) (with_status ready (lookup id w.hops)) none w)
