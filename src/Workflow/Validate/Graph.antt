-- ===== src/Workflow/Validate/Graph.antt =====
-- src/schemas/workflow-dag.ts, `validateDAG`: the graph of the hops, and its two loops over a queue. They
-- take fuel; `none` is out of fuel. A `Set` is a list.
use aof.Prelude.{
  ℕ, zero, suc, ◌+◌, ◌-◌, String, Bool, true, false, not, Option, none, some, List, [], ◌∷◌, ◌++◌,
  Dict, lookup, insert, includes, keep, if◌then◌else◌, eqb, ltb, length,
}
use aof.Workflow.Schema.{Hop}
use aof.Workflow.Validate.Errors.{ValidationError, cycle_detected, unreachable_hops, ids_of}

pub record Graph : Type 0 where
  pub adjacency : Dict (List String)
  pub in_degree : Dict ℕ

-- `adjacency.get(id) ?? []`
abbrev pub neighbors : String → Dict (List String) → List String
neighbors id m = elim (lookup id m) [ none ↦ [] | some ids ↦ ids ]

-- `inDegree.get(id) ?? 0`
abbrev pub degree : String → Dict ℕ → ℕ
degree id m = elim (lookup id m) [ none ↦ 0 | some n ↦ n ]

unfoldable pub clear_hops : List Hop → Graph → Graph
clear_hops [] g = g
clear_hops (hop ∷ hops) g =
    clear_hops hops
      (record { adjacency = insert hop.id [] g.adjacency; in_degree = insert hop.id 0 g.in_degree })

unfoldable pub add_edge : String → String → Graph → Graph
add_edge hop dep g = elim (lookup dep g.adjacency) [
  | none ↦ g
  | some ids ↦ record {
    adjacency = insert dep (ids ++ hop ∷ []) g.adjacency;
    in_degree = insert hop (degree hop g.in_degree + 1) g.in_degree;
  }
]

unfoldable pub add_edges : String → List String → Graph → Graph
unfolding add_edge
add_edges hop [] g = g
add_edges hop (dep ∷ deps) g = add_edges hop deps (add_edge hop dep g)

unfoldable pub link_hops : List Hop → Graph → Graph
unfolding add_edges
link_hops [] g = g
link_hops (hop ∷ hops) g = link_hops hops (add_edges hop.id hop.depends_on g)

unfoldable pub graph_of : List Hop → Graph
unfolding clear_hops link_hops
graph_of hops = link_hops hops (clear_hops hops (record { adjacency = []; in_degree = [] }))

-- The keys whose value passes a test.
unfoldable pub keys_where : (ℕ → Bool) → Dict ℕ → List String
keys_where p [] = []
keys_where p ((id, n) ∷ m) = let rest = keys_where p m in if p n then id ∷ rest else rest

-- The loop over the neighbours of a hop that is processed. A degree that would fall below 0 stays at 0:
-- 1 alone becomes 0 by the subtraction, so the same hops enter the queue.
unfoldable pub relax : List String → Dict ℕ → List String → Dict ℕ × List String
relax [] m queue = (m, queue)
relax (id ∷ ids) m queue =
    let d : ℕ = elim (lookup id m) [ none ↦ 1 | some n ↦ n ] in
    relax ids (insert id (d - 1) m) (if eqb d 1 then queue ++ id ∷ [] else queue)

-- The number of hops processed, and the degrees left.
unfoldable pub kahn : Dict (List String) → ℕ → List String → Dict ℕ → ℕ → Option (ℕ × Dict ℕ)
unfolding relax
kahn adj zero queue m processed = none
kahn adj (suc fuel) [] m processed = some (processed, m)
kahn adj (suc fuel) (current ∷ queue) m processed =
    let (m', queue') = relax (neighbors current adj) m queue in
    kahn adj fuel queue' m' (suc processed)

unfoldable pub check_cycles : List Hop → Option (List ValidationError)
unfolding kahn graph_of keys_where
check_cycles hops =
    let g = graph_of hops in
    let queue = keys_where (λ n. eqb n 0) g.in_degree in
    elim (kahn g.adjacency (suc (length hops)) queue g.in_degree 0) [
      | none ↦ none
      | some (processed, m) ↦ some (
          if eqb processed (length hops)
          then []
          else cycle_detected (keys_where (λ n. ltb 0 n) m) ∷ [])
    ]

unfoldable pub push_unvisited : List String → List String → List String → List String
push_unvisited visited [] queue = queue
push_unvisited visited (id ∷ ids) queue =
    push_unvisited visited ids (if not (includes id visited) then queue ++ id ∷ [] else queue)

unfoldable pub search : Dict (List String) → ℕ → List String → List String → Option (List String)
unfolding push_unvisited
search adj zero queue visited = none
search adj (suc fuel) [] visited = some visited
search adj (suc fuel) (current ∷ queue) visited = elim (includes current visited) [
  | true ↦ search adj fuel queue visited
  | false ↦
      search adj fuel (push_unvisited (current ∷ visited) (neighbors current adj) queue)
        (current ∷ visited)
]

abbrev pub edge_count : Dict (List String) → ℕ
edge_count [] = 0
edge_count ((id, ids) ∷ m) = length ids + edge_count m

abbrev pub root_hops : List Hop → List Hop
root_hops hops = keep (λ h. eqb (length h.depends_on) 0) hops

unfoldable pub check_reachable : List Hop → Option (List ValidationError)
unfolding search graph_of
check_reachable hops =
    let roots = ids_of (root_hops hops) in
    let adj = (graph_of hops).adjacency in
    if eqb (length roots) 0
    then some []
    else elim (search adj (suc (length roots + edge_count adj)) roots []) [
      | none ↦ none
      | some visited ↦
          let lost = keep (λ id. not (includes id visited)) (ids_of hops) in
          some (if ltb 0 (length lost) then unreachable_hops lost ∷ [] else [])
    ]
