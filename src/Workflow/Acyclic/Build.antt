-- ===== src/Workflow/Acyclic/Build.antt =====
-- The graph that the two loops over the hops build.
use aof.Prelude.{
  ℕ, ◌+◌, String, Bool, true, ◌||◌, some, List, [], ◌∷◌, ◌++◌, Dict, lookup, insert, includes, ◌==◌,
  ◌≡◌, refl, arith, eq_iff, eq_refl, Bool-cases, Option-cases, inl, inr,
}
use aof.Workflow.Schema.{Hop}
use aof.Workflow.Validate.Errors.{ids_of}
use aof.Workflow.Validate.Graph.{
  Graph, degree, clear_hops, add_edge, add_edges, link_hops, graph_of, keys_where,
}
use aof.Workflow.Acyclic.Counts.{occurs, occurs-snoc, inflow, inflow-insert, NoDup, Within}
use aof.Workflow.Acyclic.Kahn.{degree-insert}

abbrev pub keys_of {ℓ} : {V : Type ℓ} → Dict V → List String
keys_of [] = []
keys_of ((k, v) ∷ m) = k ∷ keys_of m

includes_keys-insert {ℓ} :
    {V : Type ℓ} (j k : String) (v : V) (m : Dict V)
    → includes j (keys_of (insert k v m)) ≡ (includes j (keys_of m) || k == j)
unfolding insert
includes_keys-insert j k v [] = ground arith
includes_keys-insert j k v ((i, w) ∷ m) =
    ground (arith, includes_keys-insert j k v m, eq_iff i k, eq_iff i j, eq_iff k j)

NoDup-keys-insert {ℓ} :
    {V : Type ℓ} (k : String) (v : V) (m : Dict V)
    → NoDup (keys_of m)
    → NoDup (keys_of (insert k v m))
unfolding insert
NoDup-keys-insert k v [] n = (refl, tt)
NoDup-keys-insert k v ((i, w) ∷ m) (away, n) = elim (Bool-cases (i == k)) [
  | inl e ↦ rw e (ground (arith, eq_iff i k), n)
  | inr e ↦ rw e (
    ground (arith, includes_keys-insert i k v m, eq_iff i k, eq_iff k i),
    NoDup-keys-insert k v m n,
  )
]

module _ (p : ℕ → Bool) where
  keys_where-Within : (m : Dict ℕ) → Within (keys_where p m) (keys_of m)
  unfolding keys_where
  keys_where-Within [] x h = h
  keys_where-Within ((k, n) ∷ m) x h = ground (arith, keys_where-Within m x)

  pub keys_where-NoDup : (m : Dict ℕ) → NoDup (keys_of m) → NoDup (keys_where p m)
  unfolding keys_where
  keys_where-NoDup [] n = tt
  keys_where-NoDup ((k, v) ∷ m) (away, n) = elim (Bool-cases (p v)) [
    | inl e ↦ rw e (ground (arith, keys_where-Within m k), keys_where-NoDup m n)
    | inr e ↦ rw e (keys_where-NoDup m n)
  ]

  pub keys_where-passes :
      (m : Dict ℕ) (x : String)
      → NoDup (keys_of m)
      → includes x (keys_where p m) ≡ true
      → (n : ℕ) × (lookup x m ≡ some n) × (p n ≡ true)
  unfolding keys_where lookup
  keys_where-passes [] x n h = cc
  keys_where-passes ((k, v) ∷ m) x (away, n) h = elim (Bool-cases (k == x)) [
    | inl e ↦ (v, rw e refl, ground (arith, keys_where-Within m x, eq_iff k x))
    | inr e ↦
        let (w, found, passes) = keys_where-passes m x n (ground arith) in (w, rw e found, passes)
  ]

-- The degrees count the edges, and belong to hops.
pub record Built (ids : List String) (g : Graph) : Type 0 where
  pub balance : (v : String) → degree v g.in_degree ≡ inflow v g.adjacency
  pub keyed : Within (keys_of g.in_degree) ids
  pub once : NoDup (keys_of g.in_degree)

-- The graph without edges.
abbrev Bare : Graph → Type 0
Bare g = (v : String) → inflow v g.adjacency ≡ 0

clear_hops-Built :
    (ids : List String) (hops : List Hop) (g : Graph)
    → Within (ids_of hops) ids
    → Bare g
    → Built ids g
    → Bare (clear_hops hops g) × Built ids (clear_hops hops g)
unfolding clear_hops occurs
clear_hops-Built ids [] g w bare b = (bare, b)
clear_hops-Built ids (hop ∷ hops) g w bare b =
    clear_hops-Built ids hops _ (λ x h. w x (ground arith)) still
      (record {
        balance =
            λ v. ground (arith, still v, degree-insert hop.id v 0 g.in_degree, b.balance v, bare v);
        keyed = λ x h. ground (arith, includes_keys-insert x hop.id 0 g.in_degree, b.keyed x, w x);
        once = NoDup-keys-insert hop.id 0 g.in_degree b.once;
      })
  where
    still : (v : String) → inflow v (insert hop.id [] g.adjacency) ≡ 0
    still v = omega (arith, inflow-insert v hop.id [] g.adjacency, bare v)

add_edge-Built :
    (ids : List String) (hop dep : String) (g : Graph)
    → includes hop ids ≡ true
    → Built ids g
    → Built ids (add_edge hop dep g)
unfolding add_edge
add_edge-Built ids hop dep g is_hop b = elim (Option-cases (lookup dep g.adjacency)) [
  | inl missing ↦ rw (missing, add_edge) b
  | inr (l, found) ↦
      rw (found, add_edge)
        (record {
          balance = λ v. ground (
            arith,
            inflow-insert v dep (l ++ hop ∷ []) g.adjacency,
            occurs-snoc v hop l,
            degree-insert hop v (degree hop g.in_degree + 1) g.in_degree,
            b.balance v,
            b.balance hop,
            eq_iff hop v,
          );
          keyed = λ x h. ground (
            arith,
            includes_keys-insert x hop (degree hop g.in_degree + 1) g.in_degree,
            b.keyed x,
            eq_iff hop x,
          );
          once = NoDup-keys-insert hop (degree hop g.in_degree + 1) g.in_degree b.once;
        })
]

add_edges-Built :
    (ids : List String) (hop : String) (deps : List String) (g : Graph)
    → includes hop ids ≡ true
    → Built ids g
    → Built ids (add_edges hop deps g)
unfolding add_edges
add_edges-Built ids hop [] g is_hop b = b
add_edges-Built ids hop (dep ∷ deps) g is_hop b =
    add_edges-Built ids hop deps _ is_hop (add_edge-Built ids hop dep g is_hop b)

link_hops-Built :
    (ids : List String) (hops : List Hop) (g : Graph)
    → Within (ids_of hops) ids
    → Built ids g
    → Built ids (link_hops hops g)
unfolding link_hops
link_hops-Built ids [] g w b = b
link_hops-Built ids (hop ∷ hops) g w b =
    link_hops-Built ids hops _ (λ x h. w x (ground arith))
      (add_edges-Built ids hop.id hop.depends_on g (w hop.id (rw (eq_refl hop.id) refl)) b)

pub graph_of-Built : (hops : List Hop) → Built (ids_of hops) (graph_of hops)
unfolding graph_of lookup inflow
graph_of-Built hops =
    link_hops-Built (ids_of hops) hops _ (λ x h. h)
      (clear_hops-Built (ids_of hops) hops (record { adjacency = []; in_degree = [] }) (λ x h. h)
        (λ v. refl) (record { balance = λ v. refl; keyed = λ x h. cc; once = tt })).1
