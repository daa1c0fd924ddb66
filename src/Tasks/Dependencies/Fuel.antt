-- ===== src/Tasks/Dependencies/Fuel.antt =====
-- The depth-first search ends: each level visits one more task of the store.
use aof.Prelude.{
  ℕ, zero, suc, ◌≤◌, ◌<◌, String, Bool, true, false, some, List, [], ◌∷◌, lookup, includes, ◌≡◌,
  refl, arith, if◌then◌else◌, ◌==◌, length, Bool-cases, Option-cases, inl, inr, eq_iff,
}
use aof.Tasks.Schema.{Task}
use aof.Tasks.Store.{Store}
use aof.Tasks.Dependencies.{deps_of, Search, search_each, dfs}

-- How many tasks of the store are not visited.
pub unvisited : Store → List String → ℕ
unvisited [] visited = 0
unvisited ((k, t) ∷ s) visited =
    let rest = unvisited s visited in if includes k visited then rest else suc rest

abbrev pub IsWithin : List String → List String → Type 0
IsWithin xs ys = (x : String) → includes x xs ≡ true → includes x ys ≡ true

pub unvisited_mono :
    (s : Store) (xs ys : List String) → IsWithin xs ys → unvisited s ys ≤ unvisited s xs
unfolding unvisited
unvisited_mono [] xs ys h = omega arith
unvisited_mono ((k, t) ∷ s) xs ys h = ground (arith, h k, unvisited_mono s xs ys h)

pub cons-IsWithin : (id : String) (xs : List String) → IsWithin xs (id ∷ xs)
cons-IsWithin id xs x h = ground arith

pub unvisited-cons :
    (s : Store) (id : String) (visited : List String) (t : Task)
    → lookup id s ≡ some t
    → includes id visited ≡ false
    → unvisited s (id ∷ visited) < unvisited s visited
unfolding unvisited lookup
unvisited-cons [] id visited t found absent = cc
unvisited-cons ((k, u) ∷ s) id visited t found absent = elim (Bool-cases (k == id)) [
  | inl same ↦
      let e : k ≡ id = (eq_iff k id).0 same in
      ground
        (arith, eq_iff id k, unvisited_mono s visited (id ∷ visited) (cons-IsWithin id visited))
  | inr other ↦
      ground (arith, eq_iff id k, eq_iff k id, unvisited-cons s id visited t (ground arith) absent)
]

pub unvisited-le-length : (s : Store) (visited : List String) → unvisited s visited ≤ length s
unfolding unvisited
unvisited-le-length [] visited = omega arith
unvisited-le-length ((k, t) ∷ s) visited = ground (arith, unvisited-le-length s visited)

-- A search returns, and keeps what was visited.
abbrev pub Returns : Search → List String → Type 0
Returns f visited =
    (found : Bool) × (seen : List String) × (f visited ≡ some (found, seen)) × IsWithin visited seen

pub IsWithin-refl : (xs : List String) → IsWithin xs xs
IsWithin-refl xs x h = h

pub IsWithin-trans : (xs ys zs : List String) → IsWithin xs ys → IsWithin ys zs → IsWithin xs zs
IsWithin-trans xs ys zs p q x h = q x (p x h)

module _ (s : Store) (target : String) where
  search_each-Returns :
      (f : String → Search) (ds visited : List String)
      → ((d : String) (seen : List String) → IsWithin visited seen → Returns (f d) seen)
      → Returns (search_each f ds) visited
  unfolding search_each
  search_each-Returns f [] visited r = (false, visited, refl, IsWithin-refl visited)
  search_each-Returns f (d ∷ ds) visited r =
      let (found, seen, e, w) = r d visited (IsWithin-refl visited) in
      elim (Bool-cases found) [
        | inl yes_found ↦ (true, seen, ground arith, w)
        | inr not_found ↦
            let (found', seen', e', w') =
              search_each-Returns f ds seen
                (λ x more v. r x more (IsWithin-trans visited seen more w v)) in
            (found', seen', ground arith, IsWithin-trans visited seen seen' w w')
      ]

  pub dfs-Returns :
      (fuel : ℕ) (id : String) (visited : List String)
      → suc (unvisited s visited) < fuel
      → Returns (dfs s target fuel id) visited
  unfolding dfs
  dfs-Returns zero id visited h = elim h [ ]
  dfs-Returns (suc fuel) id visited h = elim (Bool-cases (id == target)) [
    | inl e ↦ (true, visited, rw e, IsWithin-refl visited)
    | inr e ↦ elim (Bool-cases (includes id visited)) [
      | inl old ↦ (false, visited, ground arith, IsWithin-refl visited)
      | inr new ↦ elim (Option-cases (lookup id s)) [
        | inl absent ↦ (false, id ∷ visited, ground arith, cons-IsWithin id visited)
        | inr (t, found) ↦
            let (b, seen, done, w) =
              search_each-Returns (dfs s target fuel) (deps_of s id) (id ∷ visited) (λ d more v.
                dfs-Returns fuel d more (
                  omega (
                    arith,
                    unvisited_mono s (id ∷ visited) more v,
                    unvisited-cons s id visited t found new,
                  ))) in
            (
              b,
              seen,
              ground arith,
              IsWithin-trans visited (id ∷ visited) seen (cons-IsWithin id visited) w,
            )
      ]
    ]
  ]
