-- ===== src/Workflow/Acyclic/Visits.antt =====
-- `validateDAG`: the search from the roots returns.
use aof.Prelude.{
  ℕ, zero, suc, ◌+◌, ◌≤◌, ◌<◌, String, false, not, some, List, [], ◌∷◌, ◌++◌, Dict, lookup,
  includes, if◌then◌else◌, ◌==◌, eqb, ltb, length, length-append, ◌≡◌, refl, arith, eq_iff,
  Bool-cases, inl, inr, keep,
}
use aof.Workflow.Schema.{Hop}
use aof.Workflow.Validate.Errors.{ValidationError, ids_of, unreachable_hops}
use aof.Workflow.Validate.Graph.{
  neighbors, graph_of, push_unvisited, search, edge_count, root_hops, check_reachable,
}

-- The edges that leave a node that was not visited.
weight : List String → Dict (List String) → ℕ
weight visited [] = 0
weight visited ((u, vs) ∷ m) =
    let rest = weight visited m in if includes u visited then rest else length vs + rest

weight_grow :
    (c : String) (visited : List String) (m : Dict (List String))
    → weight (c ∷ visited) m ≤ weight visited m
unfolding weight
weight_grow c visited [] = omega arith
weight_grow c visited ((u, vs) ∷ m) = ground (arith, weight_grow c visited m)

weight_visit :
    (c : String) (visited : List String) (m : Dict (List String))
    → includes c visited ≡ false
    → weight (c ∷ visited) m + length (neighbors c m) ≤ weight visited m
unfolding weight lookup
weight_visit c visited [] h = omega arith
weight_visit c visited ((u, vs) ∷ m) h = elim (Bool-cases (u == c)) [
  | inl e ↦ ground (arith, weight_grow c visited m, eq_iff u c, eq_iff c u)
  | inr e ↦ ground (arith, weight_visit c visited m h, eq_iff u c, eq_iff c u)
]

weight-le : (m : Dict (List String)) → weight [] m ≤ edge_count m
unfolding weight
weight-le [] = omega arith
weight-le ((u, vs) ∷ m) = omega (arith, weight-le m)

push-length :
    (visited ids queue : List String)
    → length (push_unvisited visited ids queue) ≤ length queue + length ids
unfolding push_unvisited
push-length visited [] queue = omega arith
push-length visited (x ∷ ids) queue = elim (Bool-cases (includes x visited)) [
  | inl e ↦ rw e (omega (arith, push-length visited ids queue))
  | inr e ↦
      rw e (omega (arith, push-length visited ids (queue ++ x ∷ []), length-append queue (x ∷ [])))
]

search_returns :
    (adj : Dict (List String)) (fuel : ℕ) (queue visited : List String)
    → length queue + weight visited adj < fuel
    → (seen : List String) × (search adj fuel queue visited ≡ some seen)
unfolding search
search_returns adj zero queue visited h = ground arith
search_returns adj (suc fuel) [] visited h = (visited, refl)
search_returns adj (suc fuel) (c ∷ queue) visited h = elim (Bool-cases (includes c visited)) [
  | inl e ↦
      let (seen, runs) = search_returns adj fuel queue visited (omega (arith, h)) in
      (seen, rw (e, search) runs)
  | inr e ↦
      let q = push_unvisited (c ∷ visited) (neighbors c adj) queue in
      let (seen, runs) = search_returns adj fuel q (c ∷ visited) (
        omega (
          arith,
          h,
          push-length (c ∷ visited) (neighbors c adj) queue,
          weight_visit c visited adj e,
        )) in
      (seen, rw (e, search) runs)
]

pub check_reachable_returns :
    (hops : List Hop) → (errors : List ValidationError) × (check_reachable hops ≡ some errors)
unfolding check_reachable
check_reachable_returns hops =
    let roots = ids_of (root_hops hops) in
    let adj = (graph_of hops).adjacency in
    let (seen, runs) =
      search_returns adj (suc (length roots + edge_count adj)) roots []
        (omega (arith, weight-le adj)) in
    elim (Bool-cases (eqb (length roots) 0)) [
      | inl none_there ↦ ([], rw none_there refl)
      | inr some_there ↦ (
        if ltb 0 (length (lost seen)) then unreachable_hops (lost seen) ∷ [] else [],
        rw some_there (rw (runs, check_reachable) refl),
      )
    ]
  where
    lost : List String → List String
    lost seen = keep (λ id. not (includes id seen)) (ids_of hops)
