-- ===== src/Dag/Cascade.antt =====
-- src/dispatch/dag-evaluator.ts, `buildDownstreamIndex` and `cascadeSkips`.
use aof.Prelude.{
  ℕ, zero, suc, String, Bool, Option, none, some, List, [], ◌∷◌, ◌++◌, Dict, lookup, insert,
  if◌then◌else◌, ◌==◌, every, find,
}
use aof.Workflow.Schema.{Hop, WorkflowDefinition, HopState, pending, skipped}
use aof.Dag.Types.{Result, ok, type_error, out_of_fuel, ◌>>=◌, Work}
use aof.Dag.Status.{status_of, is_pending, is_non_success, finished, write}

-- `if (!index.has(id)) index.set(id, [])`
unfoldable pub ensure : String → Dict (List String) → Dict (List String)
ensure id index = elim (lookup id index) [ none ↦ insert id [] index | some _ ↦ index ]

-- `index.get(dep) ?? []`
unfoldable pub downstream_of : Dict (List String) → String → List String
downstream_of index id = elim (lookup id index) [ none ↦ [] | some ids ↦ ids ]

-- The inner loop, over the dependencies of one hop.
unfoldable pub add_edges : String → List String → Dict (List String) → Dict (List String)
unfolding ensure downstream_of
add_edges id [] index = index
add_edges id (dep ∷ deps) index =
    add_edges id deps (insert dep (downstream_of index dep ++ id ∷ []) (ensure dep index))

unfoldable pub index_hops : List Hop → Dict (List String) → Dict (List String)
unfolding add_edges
index_hops [] index = index
index_hops (hop ∷ hops) index =
    index_hops hops (add_edges hop.id hop.depends_on (ensure hop.id index))

unfoldable pub build_downstream_index : WorkflowDefinition → Dict (List String)
unfolding index_hops
build_downstream_index def = index_hops def.hops []

-- `definition.hops.find((h) => h.id === id)`
unfoldable pub find_hop : WorkflowDefinition → String → Option Hop
find_hop def id = find (λ h. h.id == id) def.hops

-- A pending hop whose predecessors are all skipped or failed.
unfoldable pub all_non_success : Dict HopState → Hop → Bool
all_non_success hops hop = every (λ dep. is_non_success (status_of hops dep)) hop.depends_on

-- `{ ...state.hops[id]!, status: "skipped", completedAt }`, with its entry in the change log.
unfoldable pub skip : ℕ → String → String → Work → Work
unfolding write finished
skip timestamp reason id w =
    write id (some pending) (finished skipped timestamp (lookup id w.hops)) (some reason) w

module _ (def : WorkflowDefinition) (timestamp : ℕ) where
  -- One round of the loop; `recurse` is the recursive call.
  unfoldable pub cascade_hop : (String → Work → Result Work) → String → Work → Result Work
  cascade_hop recurse id w =
      if is_pending (status_of w.hops id)
      then elim (find_hop def id) [
        | none ↦ type_error
        | some hop ↦
            if all_non_success w.hops hop then recurse id (skip timestamp "cascade" id w) else ok w
      ]
      else ok w

  unfoldable pub cascade_each : (String → Work → Result Work) → List String → Work → Result Work
  cascade_each recurse [] w = ok w
  cascade_each recurse (id ∷ ids) w = cascade_hop recurse id w >>= λ w'. cascade_each recurse ids w'

  unfoldable pub cascade_skips : ℕ → String → Work → Result Work
  cascade_skips zero start w = out_of_fuel
  cascade_skips (suc fuel) start w =
      cascade_each (cascade_skips fuel) (downstream_of (build_downstream_index def) start) w
