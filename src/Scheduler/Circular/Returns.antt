-- ===== src/Scheduler/Circular/Returns.antt =====
-- The search ends: each level visits one more task.
use aof.Prelude.{
  ℕ, zero, suc, ◌<◌, String, some, List, [], ◌∷◌, lookup, includes, ◌≡◌, refl, arith, length,
  Bool-cases, Option-cases, inl, inr,
}
use aof.Tasks.Schema.{Task}
use aof.Tasks.Store.{Store}
use aof.Tasks.Dependencies.{deps_of}
use aof.Tasks.Dependencies.Fuel.{
  unvisited, unvisited_mono, unvisited-cons, unvisited-le-length, IsWithin, cons-IsWithin,
  IsWithin-refl, IsWithin-trans,
}
use aof.Scheduler.Circular.{
  Marks, Visit, add_all, cycle_from, detect_each, detect_circular_deps, start_at, detect_all,
}

-- A visit returns, and keeps what was visited.
abbrev Returns : Visit → Marks → Type 0
Returns f m = (n : Marks) × (f m ≡ some n) × IsWithin m.visited n.visited

module _ (s : Store) where
  detect_each-Returns :
      (f : String → Visit) (ds : List String) (m : Marks)
      → ((d : String) (n : Marks) → IsWithin m.visited n.visited → Returns (f d) n)
      → Returns (detect_each f ds) m
  unfolding detect_each
  detect_each-Returns f [] m r = (m, refl, IsWithin-refl m.visited)
  detect_each-Returns f (d ∷ ds) m r =
      let (n, e, w) = r d m (IsWithin-refl m.visited) in
      let (last, e', w') =
        detect_each-Returns f ds n (λ x more v. r x more (IsWithin-trans _ n.visited _ w v)) in
      (last, rw (detect_each, e) e', IsWithin-trans _ n.visited _ w w')

  pub detect-Returns :
      (fuel : ℕ) (stack : List String) (id : String) (m : Marks)
      → suc (unvisited s m.visited) < fuel
      → Returns (detect_circular_deps s fuel stack id) m
  unfolding detect_circular_deps deps_of detect_each
  detect-Returns zero stack id m h = elim h [ ]
  detect-Returns (suc fuel) stack id m h = elim (Bool-cases (includes id stack)) [
    | inl back ↦ (
      record m { circular = add_all (cycle_from id stack) m.circular },
      rw back refl,
      IsWithin-refl m.visited,
    )
    | inr fresh ↦ elim (Bool-cases (includes id m.visited)) [
      | inl old ↦ (m, rw (fresh, old) refl, IsWithin-refl m.visited)
      | inr new ↦
          let entered : Marks = record m { visited = id ∷ m.visited } in
          elim (Option-cases (lookup id s)) [
            | inl absent ↦
                (entered, rw (fresh, new, deps_of, absent) refl, cons-IsWithin id m.visited)
            | inr (t, found) ↦
                let (n, e, w) =
                  detect_each-Returns (detect_circular_deps s fuel (id ∷ stack)) (deps_of s id)
                    entered
                    (λ d more v. detect-Returns fuel (id ∷ stack) d more (
                      omega (
                        arith,
                        unvisited_mono s (id ∷ m.visited) more.visited v,
                        unvisited-cons s id m.visited t found new,
                      ))) in
                (
                  n,
                  rw (fresh, new) e,
                  IsWithin-trans _ (id ∷ m.visited) _ (cons-IsWithin id m.visited) w,
                )
          ]
    ]
  ]

  start-Returns :
      (fuel : ℕ) (t : Task) (m : Marks) → suc (length s) < fuel → Returns (start_at s fuel t) m
  unfolding start_at
  start-Returns fuel t m h = elim (Bool-cases (includes t.id m.visited)) [
    | inl old ↦ (m, rw old refl, IsWithin-refl m.visited)
    | inr new ↦
        let (n, e, w) =
          detect-Returns fuel [] t.id m (omega (arith, unvisited-le-length s m.visited)) in
        (n, rw new e, w)
  ]

  pub detect_all-Returns :
      (fuel : ℕ) (ts : List Task) (m : Marks)
      → suc (length s) < fuel
      → Returns (detect_all s fuel ts) m
  unfolding detect_all
  detect_all-Returns fuel [] m h = (m, refl, IsWithin-refl m.visited)
  detect_all-Returns fuel (t ∷ ts) m h =
      let (n, e, w) = start-Returns fuel t m h in
      let (last, e', w') = detect_all-Returns fuel ts n h in
      (last, rw (detect_all, e) e', IsWithin-trans _ n.visited _ w w')
