-- ===== src/Dag/Run/Total.antt =====
-- The skip cascade ends: every recursive call is behind a hop that stops being pending.
use mathlib.Core.List.{Memᴰ}
use aof.Prelude.{
  ℕ, zero, suc, ◌≤◌, ◌<◌, String, true, false, none, some, List, [], ◌∷◌, ◌++◌, Dict, lookup,
  insert, lookup-insert, tally, tally-insert_drop, if◌then◌else◌, ◌==◌, ◌≡◌, refl, arith, All,
  All-append, All-of_mem, find_of_mem, Bool-cases, Option-cases, inl, inr, eq_refl, eq_iff, subst,
  length, text-cases,
}
use aof.Workflow.Schema.{Hop, WorkflowDefinition, HopState, skipped}
use aof.Dag.Types.{Result, ok, ◌>>=◌, Work}
use aof.Dag.Status.{status_of, is_pending, write, finished_lem}
use aof.Dag.Cascade.{
  ensure, downstream_of, add_edges, index_hops, build_downstream_index, find_hop, all_non_success,
  skip, cascade_hop, cascade_each, cascade_skips,
}

-- The definition has a hop of that identifier.
abbrev pub Defines : WorkflowDefinition → String → Type 0
Defines def id = (hop : Hop) × (find_hop def id ≡ some hop)

pub Defines-of_mem : (def : WorkflowDefinition) (hop : Hop) → Memᴰ hop def.hops → Defines def hop.id
unfolding find_hop
Defines-of_mem def hop m = find_of_mem (λ h. h.id == hop.id) m (eq_refl hop.id)

downstream-insert :
    (k j : String) (ids : List String) (index : Dict (List String))
    → downstream_of (insert k ids index) j ≡ (if k == j then ids else downstream_of index j)
unfolding downstream_of
downstream-insert k j ids index =
    rw (lookup-insert k j ids index, downstream_of)
      (elim (Bool-cases (k == j)) [ inl e ↦ rw e | inr e ↦ rw e ])

downstream-insert_nil :
    (k j : String) (index : Dict (List String))
    → lookup k index ≡ none
    → downstream_of (insert k [] index) j ≡ downstream_of index j
unfolding downstream_of
downstream-insert_nil k j index e = elim (text-cases k j) [
  | inl same ↦
      let absent : lookup j index ≡ none = subst (λ x. lookup x index ≡ none) same e in
      ground (arith, lookup-insert k j [] index, eq_iff k j)
  | inr other ↦ ground (arith, lookup-insert k j [] index)
]

downstream-ensure :
    (k j : String) (index : Dict (List String))
    → downstream_of (ensure k index) j ≡ downstream_of index j
unfolding ensure
downstream-ensure k j index = elim (Option-cases (lookup k index)) [
  | inr (ids, e) ↦ rw (e, ensure)
  | inl e ↦ rw (e, ensure) (downstream-insert_nil k j index e)
]

-- Every dependent that the index lists has the property.
Lists : (String → Type 0) → Dict (List String) → Type 0
Lists P index = (k : String) → All P (downstream_of index k)

module _ (P : String → Type 0) where
  add_edges-Lists :
      (id : String) (deps : List String) (index : Dict (List String))
      → P id
      → Lists P index
      → Lists P (add_edges id deps index)
  unfolding add_edges Lists
  add_edges-Lists id [] index p h = h
  add_edges-Lists id (dep ∷ deps) index p h = add_edges-Lists id deps _ p λ k.
      rw (downstream-insert dep k (downstream_of index dep ++ id ∷ []) (ensure dep index))
        (elim (Bool-cases (dep == k)) [
          | inl e ↦ rw e (All-append P (downstream_of index dep) (id ∷ []) (h dep) (p, tt))
          | inr e ↦ rw (e, downstream-ensure dep k index) (h k)
        ])

  index_hops-Lists :
      (hops : List Hop) (index : Dict (List String))
      → All (λ hop. P hop.id) hops
      → Lists P index
      → Lists P (index_hops hops index)
  unfolding index_hops Lists
  index_hops-Lists [] index p h = h
  index_hops-Lists (hop ∷ hops) index p h = index_hops-Lists hops _ p.1 (
      add_edges-Lists hop.id hop.depends_on (ensure hop.id index) p.0
        λ k. rw (downstream-ensure hop.id k index) (h k))

-- The cascade only visits hops of the definition.
pub downstream-Defines :
    (def : WorkflowDefinition) (start : String)
    → All (Defines def) (downstream_of (build_downstream_index def) start)
unfolding build_downstream_index Lists
downstream-Defines def start =
    index_hops-Lists (Defines def) def.hops []
      (All-of_mem def.hops (λ hop m. Defines-of_mem def hop m))
      (λ k. unfold downstream_of lookup in tt) start

-- How many hops of the state are pending.
abbrev pub pending_count : Dict HopState → ℕ
pending_count = tally (λ h. is_pending (some h.status))

pending_count-skip :
    (t : ℕ) (r id : String) (w : Work)
    → is_pending (status_of w.hops id) ≡ true
    → suc (pending_count (skip t r id w).hops) ≡ pending_count w.hops
unfolding skip write status_of
pending_count-skip t r id w h = elim (Option-cases (lookup id w.hops)) [
  | inl e ↦ ground arith
  | inr (old, e) ↦
      tally-insert_drop (λ h. is_pending (some h.status)) id _ old w.hops e (ground arith)
        (rw (finished_lem skipped t (lookup id w.hops)))
]

-- A call ends in a state with no more pending hops than before.
abbrev Ends : (String → Work → Result Work) → String → Work → Type 0
Ends recurse id w =
    (v : Work) × (recurse id w ≡ ok v) × (pending_count v.hops ≤ pending_count w.hops)

module _ (def : WorkflowDefinition) (t : ℕ) where
  cascade_hop-Ends :
      (recurse : String → Work → Result Work) (id : String) (w : Work)
      → Defines def id
      → ((u : Work) → suc (pending_count u.hops) ≡ pending_count w.hops → Ends recurse id u)
      → (v : Work) × (cascade_hop def t recurse id w ≡ ok v)
        × (pending_count v.hops ≤ pending_count w.hops)
  unfolding cascade_hop
  cascade_hop-Ends recurse id w (hop, found) ends =
      elim (Bool-cases (is_pending (status_of w.hops id))) [
        | inr still ↦ (w, rw still, omega arith)
        | inl waits ↦ elim (Bool-cases (all_non_success w.hops hop)) [
          | inr lives ↦ (w, ground arith, omega arith)
          | inl fails ↦
              let u = skip t "cascade" id w in
              let less : suc (pending_count u.hops) ≡ pending_count w.hops =
                pending_count-skip t "cascade" id w waits in
              let (v, e, fewer) = ends u less in (v, ground arith, omega arith)
        ]
      ]

  cascade_each-Ends :
      (recurse : String → Work → Result Work) (ids : List String) (w : Work)
      → All (Defines def) ids
      → ((id : String) (u : Work) → pending_count u.hops < pending_count w.hops → Ends recurse id u)
      → (v : Work) × (cascade_each def t recurse ids w ≡ ok v)
        × (pending_count v.hops ≤ pending_count w.hops)
  unfolding cascade_each
  cascade_each-Ends recurse [] w d ends = (w, refl, omega arith)
  cascade_each-Ends recurse (id ∷ ids) w d ends =
      let (u, first, fewer) =
        cascade_hop-Ends recurse id w d.0 (λ u less. ends id u (omega arith)) in
      let (v, rest, fewest) =
        cascade_each-Ends recurse ids u d.1 (λ i x less. ends i x (omega arith)) in
      (v, rw (first, ◌>>=◌) rest, omega arith)

  -- With more fuel than pending hops the cascade returns.
  pub cascade_skips-Ends :
      (fuel : ℕ) (start : String) (w : Work)
      → pending_count w.hops < fuel
      → Ends (cascade_skips def t fuel) start w
  unfolding cascade_skips
  cascade_skips-Ends zero start w h = elim h [ ]
  cascade_skips-Ends (suc fuel) start w h =
      cascade_each-Ends (cascade_skips def t fuel) _ w (downstream-Defines def start)
        (λ id u less. cascade_skips-Ends fuel id u (omega arith))

pub pending_count-le-length : (hops : Dict HopState) → pending_count hops ≤ length hops
unfolding tally
pending_count-le-length [] = omega arith
pending_count-le-length ((id, h) ∷ hops) = ground (arith, pending_count-le-length hops)

-- A write of a hop that is not pending adds no pending hop.
pub pending_count-insert :
    (id : String) (h : HopState) (hops : Dict HopState)
    → is_pending (some h.status) ≡ false
    → pending_count (insert id h hops) ≤ pending_count hops
unfolding tally insert
pending_count-insert id h [] e = ground arith
pending_count-insert id h ((j, g) ∷ hops) e = ground (arith, pending_count-insert id h hops)
