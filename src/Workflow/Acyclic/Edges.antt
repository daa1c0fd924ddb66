-- ===== src/Workflow/Acyclic/Edges.antt =====
-- Every dependency of a hop on a hop is an edge of the graph.
use mathlib.Core.List.{Memᴰ}
use aof.Prelude.{
  String, Bool, true, false, ◌||◌, none, some, List, [], ◌∷◌, ◌++◌, lookup, insert, lookup-insert,
  includes, includes-snoc, ◌==◌, ◌≡◌, sym, subst, arith, eq_iff, eq_refl, Bool-cases, Option-cases,
  inl, inr,
}
use aof.Workflow.Schema.{Hop}
use aof.Workflow.Validate.Errors.{ids_of}
use aof.Workflow.Validate.Graph.{
  Graph, neighbors, clear_hops, add_edge, add_edges, link_hops, graph_of,
}

abbrev is_key : String → Graph → Bool
is_key u g = elim (lookup u g.adjacency) [ none ↦ false | some _ ↦ true ]

abbrev pub IsEdge : String → String → Graph → Type 0
IsEdge u v g = includes v (neighbors u g.adjacency) ≡ true

-- What a later graph keeps.
abbrev Grows : Graph → Graph → Type 0
Grows g g' =
    ((u : String) → is_key u g ≡ true → is_key u g' ≡ true)
    × ((u v : String) → IsEdge u v g → IsEdge u v g')

Grows-trans : (a b c : Graph) → Grows a b → Grows b c → Grows a c
Grows-trans a b c p q = ((λ u h. q.0 u (p.0 u h)), (λ u v h. q.1 u v (p.1 u v h)))

add_edge-Grows : (hop dep : String) (g : Graph) → Grows g (add_edge hop dep g)
unfolding add_edge
add_edge-Grows hop dep g = elim (Option-cases (lookup dep g.adjacency)) [
  | inl missing ↦ rw (missing, add_edge) ((λ u h. h), (λ u v h. h))
  | inr (l, found) ↦
      rw (found, add_edge)
        (
          (λ u h. ground (arith, lookup-insert dep u (l ++ hop ∷ []) g.adjacency)),
          (λ u v h. ground (
            arith,
            lookup-insert dep u (l ++ hop ∷ []) g.adjacency,
            includes-snoc v hop l,
            eq_iff dep u,
          )),
        )
]

add_edge-IsEdge :
    (hop dep : String) (g : Graph) → is_key dep g ≡ true → IsEdge dep hop (add_edge hop dep g)
unfolding add_edge
add_edge-IsEdge hop dep g h = elim (Option-cases (lookup dep g.adjacency)) [
  | inl missing ↦ ground arith
  | inr (l, found) ↦
      rw (found, add_edge)
        (ground (
          arith,
          lookup-insert dep dep (l ++ hop ∷ []) g.adjacency,
          includes-snoc hop hop l,
          eq_refl dep,
          eq_refl hop,
        ))
]

add_edges-Grows : (hop : String) (deps : List String) (g : Graph) → Grows g (add_edges hop deps g)
unfolding add_edges
add_edges-Grows hop [] g = ((λ u h. h), (λ u v h. h))
add_edges-Grows hop (dep ∷ deps) g =
    Grows-trans g (add_edge hop dep g) (add_edges hop deps (add_edge hop dep g))
      (add_edge-Grows hop dep g) (add_edges-Grows hop deps (add_edge hop dep g))

add_edges-IsEdge :
    (hop d : String) (deps : List String) (g : Graph)
    → includes d deps ≡ true
    → is_key d g ≡ true
    → IsEdge d hop (add_edges hop deps g)
unfolding add_edges
add_edges-IsEdge hop d [] g m h = cc
add_edges-IsEdge hop d (dep ∷ deps) g m h = elim (Bool-cases (dep == d)) [
  | inl e ↦
      let same : dep ≡ d = (eq_iff dep d).0 e in
      (add_edges-Grows hop deps (add_edge hop dep g)).1 d hop (
        subst (λ x. IsEdge x hop (add_edge hop dep g)) same
          (add_edge-IsEdge hop dep g (subst (λ x. is_key x g ≡ true) (sym same) h)))
  | inr e ↦
      add_edges-IsEdge hop d deps (add_edge hop dep g) (ground arith)
        ((add_edge-Grows hop dep g).0 d h)
]

link_hops-Grows : (hops : List Hop) (g : Graph) → Grows g (link_hops hops g)
unfolding link_hops
link_hops-Grows [] g = ((λ u h. h), (λ u v h. h))
link_hops-Grows (hop ∷ hops) g =
    Grows-trans g (add_edges hop.id hop.depends_on g)
      (link_hops hops (add_edges hop.id hop.depends_on g)) (add_edges-Grows hop.id hop.depends_on g)
      (link_hops-Grows hops (add_edges hop.id hop.depends_on g))

link_hops-IsEdge :
    (h : Hop) (d : String) (hops : List Hop) (g : Graph)
    → Memᴰ h hops
    → includes d h.depends_on ≡ true
    → is_key d g ≡ true
    → IsEdge d h.id (link_hops hops g)
unfolding link_hops
link_hops-IsEdge h d [] g m inc k = elim m [ ]
link_hops-IsEdge h d (hop ∷ hops) g (Memᴰ.head e) inc k =
    (link_hops-Grows hops (add_edges hop.id hop.depends_on g)).1 d h.id (
      subst (λ x. IsEdge d h.id (add_edges x.id x.depends_on g)) e
        (add_edges-IsEdge h.id d h.depends_on g inc k))
link_hops-IsEdge h d (hop ∷ hops) g (Memᴰ.tail m) inc k =
    link_hops-IsEdge h d hops (add_edges hop.id hop.depends_on g) m inc
      ((add_edges-Grows hop.id hop.depends_on g).0 d k)

clear_hops-key :
    (u : String) (hops : List Hop) (g : Graph)
    → (includes u (ids_of hops) || is_key u g) ≡ true
    → is_key u (clear_hops hops g) ≡ true
unfolding clear_hops
clear_hops-key u [] g h = h
clear_hops-key u (hop ∷ hops) g h =
    clear_hops-key u hops
      (record { adjacency = insert hop.id [] g.adjacency; in_degree = insert hop.id 0 g.in_degree })
      (ground (arith, lookup-insert hop.id u [] g.adjacency))

pub graph_of-IsEdge :
    (h : Hop) (d : String) (hops : List Hop)
    → Memᴰ h hops
    → includes d h.depends_on ≡ true
    → includes d (ids_of hops) ≡ true
    → IsEdge d h.id (graph_of hops)
unfolding graph_of
graph_of-IsEdge h d hops m inc known =
    let empty : Graph = record { adjacency = []; in_degree = [] } in
    link_hops-IsEdge h d hops (clear_hops hops empty) m inc
      (clear_hops-key d hops empty (ground arith))
