-- ===== src/Scheduler/Circular/Complete.antt =====
-- What the search for circular dependencies tells.
use aof.Prelude.{
  suc, String, true, some, List, [], ◌∷◌, lookup, insert, lookup-insert, includes, ◌≡◌, ◌≢◌, refl,
  arith, eq_iff, Option-cases, inl, inr, ◌⊎◌, length, text-cases,
}
use aof.Tasks.Schema.{Task}
use aof.Tasks.Store.{Store}
use aof.Tasks.Dependencies.{deps_of}
use aof.Tasks.Dependencies.Graph.{Needs, IsAcyclic}
use aof.Scheduler.Circular.{Marks, task_map, circular_deps_of}
use aof.Scheduler.Circular.Returns.{detect_all-Returns}
use aof.Scheduler.Circular.Marked.{AllOnCycle, detect_all-AllOnCycle}
use aof.Scheduler.Circular.Settled.{listed_ids, Ends-uncycled, detect_all-Ends}

-- The map has only listed tasks.
task_map-listed :
    (ts : List Task) (m : Store) (x : String) (u : Task)
    → lookup x (task_map ts m) ≡ some u
    → (includes x (listed_ids ts) ≡ true) ⊎ (lookup x m ≡ some u)
unfolding task_map
task_map-listed [] m x u h = inr h
task_map-listed (t ∷ ts) m x u h = elim (text-cases t.id x) [
  | inl same ↦ inl (ground (arith, eq_iff t.id x))
  | inr other ↦ elim (task_map-listed ts (insert t.id t m) x u h) [
    | inl listed ↦ inl (ground arith)
    | inr held ↦ inr (ground (arith, lookup-insert t.id x t m))
  ]
]

Needs-listed :
    (all : List Task) (a b : String)
    → Needs (task_map all []) a b
    → includes a (listed_ids all) ≡ true
unfolding deps_of lookup
Needs-listed all a b h = elim (Option-cases (lookup a (task_map all []))) [
  | inl absent ↦ ground arith
  | inr (u, found) ↦ elim (task_map-listed all [] a u found) [ inl listed ↦ listed | inr held ↦ cc ]
]

-- The search of a poll ends for every listing. Each task that it marks depends on itself by a chain of
-- dependencies; and if it marks none, no listed task does.
pub circular_deps_of_lem :
    (all : List Task)
    → (m : Marks) × (circular_deps_of all ≡ some m)
      × AllOnCycle (task_map all []) m.circular
      × ((m.circular ≢ []) ⊎ IsAcyclic (task_map all []))
unfolding circular_deps_of
circular_deps_of_lem all =
    let s = task_map all [] in
    let start : Marks = record { visited = []; circular = [] } in
    let (m, e, w) = detect_all-Returns s (suc (suc (length s))) all start (omega arith) in
    (
      m,
      e,
      detect_all-AllOnCycle s (suc (suc (length s))) all start m e (λ x i. cc),
      elim (empty_or m.circular) [
        | inl marked ↦ inl marked
        | inr clean ↦ inr (λ a b first walk.
            Ends-uncycled s a
              (detect_all-Ends s (suc (suc (length s))) all start m e clean (λ x i. cc) a
                (Needs-listed all a b first))
              (b, first, walk))
      ],
    )
  where
    empty_or : (xs : List String) → (xs ≢ []) ⊎ (xs ≡ [])
    empty_or [] = inr refl
    empty_or (x ∷ xs) = inl (λ h. cc)
