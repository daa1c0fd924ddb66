-- ===== src/Tasks/Dependencies/Search.antt =====
-- What the depth-first search finds: `hasCycle` decides whether the blocker reaches the task.
use aof.Prelude.{
  ℕ, zero, suc, String, Bool, true, false, Option, none, some, List, [], ◌∷◌, includes, ◌≡◌, ◌≢◌,
  refl, arith, subst, ◌==◌, length, Bool-cases, inl, inr, ◌⊎◌, ◌↔◌, eq_iff, eq_refl,
}
use aof.Tasks.Store.{Store}
use aof.Tasks.Dependencies.{deps_of, Search, search_each, dfs, has_cycle}
use aof.Tasks.Dependencies.Graph.{Needs, Reach, here, next, Reach-trans}
use aof.Tasks.Dependencies.Fuel.{
  IsWithin, IsWithin-refl, IsWithin-trans, cons-IsWithin, unvisited-le-length, dfs-Returns,
}

module _ (s : Store) (target : String) where
  -- A search that meets the target has walked to it.
  walk_each :
      (f : String → Search) (from : String) (ds visited seen : List String)
      → ((d : String) (v w : List String) → f d v ≡ some (true, w) → Reach s d target)
      → ((d : String) → includes d ds ≡ true → Needs s from d)
      → search_each f ds visited ≡ some (true, seen)
      → Reach s from target
  unfolding search_each
  walk_each f from [] visited seen sound needs e = cc
  walk_each f from (d ∷ ds) visited seen sound needs e = elim (first_step (f d visited) refl) [
    | inl hit ↦ Reach-trans (next here (needs d (head_included d ds))) (sound d visited hit.0 hit.1)
    | inr more ↦ walk_each f from ds more.0 seen sound (λ x m. needs x (ground arith)) more.1
  ]
    where
      head_included : (x : String) (xs : List String) → includes x (x ∷ xs) ≡ true
      head_included x xs = ground (arith, eq_refl x)

      first_step :
          (r : Option (Bool × List String))
          → f d visited ≡ r
          → ((w : List String) × (f d visited ≡ some (true, w)))
            ⊎ ((w : List String) × (search_each f ds w ≡ some (true, seen)))
      first_step none h = ground arith
      first_step (some (true, w)) h = inl (w, h)
      first_step (some (false, w)) h = inr (w, ground arith)

  dfs_sound :
      (fuel : ℕ) (id : String) (visited seen : List String)
      → dfs s target fuel id visited ≡ some (true, seen)
      → Reach s id target
  unfolding dfs
  dfs_sound zero id visited seen e = cc
  dfs_sound (suc fuel) id visited seen e = elim (Bool-cases (id == target)) [
    | inl same ↦ subst (Reach s id) ((eq_iff id target).0 same) here
    | inr other ↦ elim (Bool-cases (includes id visited)) [
      | inl old ↦ ground arith
      | inr new ↦
          walk_each (dfs s target fuel) id (deps_of s id) (id ∷ visited) seen
            (λ d v w. dfs_sound fuel d v w) (λ d m. m) (ground arith)
    ]
  ]

  -- A node is settled if it is not the target and its dependencies are all seen.
  record IsSettled (seen : List String) (x : String) : Type 0 where
    other : x ≢ target
    below : IsWithin (deps_of s x) seen

  -- After a search without success, each node seen was seen before or is settled.
  record Exhausts (visited seen : List String) : Type 0 where
    keeps : IsWithin visited seen
    settles : (x : String) → includes x seen ≡ true → (includes x visited ≡ true) ⊎ IsSettled seen x

  settled_more : (a b : List String) (x : String) → IsWithin a b → IsSettled a x → IsSettled b x
  settled_more a b x w h = record { other = h.other; below = IsWithin-trans _ a b h.below w }

  Exhausts-refl : (a : List String) → Exhausts a a
  Exhausts-refl a = record { keeps = IsWithin-refl a; settles = λ x m. inl m }

  Exhausts-trans : (a b c : List String) → Exhausts a b → Exhausts b c → Exhausts a c
  Exhausts-trans a b c p q = record {
    keeps = IsWithin-trans a b c p.keeps q.keeps;
    settles = λ x m. elim (q.settles x m) [
      | inr done ↦ inr done
      | inl old ↦ elim (p.settles x old) [
        | inl older ↦ inl older
        | inr done ↦ inr (settled_more b c x q.keeps done)
      ]
    ];
  }

  -- The loop over the dependencies, where it meets no target.
  exhaust_each :
      (f : String → Search) (ds visited seen : List String)
      → ((d : String) (v w : List String)
          → f d v ≡ some (false, w)
          → Exhausts v w × (includes d w ≡ true))
      → search_each f ds visited ≡ some (false, seen)
      → Exhausts visited seen × IsWithin ds seen
  unfolding search_each
  exhaust_each f [] visited seen step e =
      let same : visited ≡ seen = ground arith in
      (subst (Exhausts visited) same (Exhausts-refl visited), λ x m. cc)
  exhaust_each f (d ∷ ds) visited seen step e =
      let (w, first, rest) = first_step (f d visited) refl in
      let (now, here_too) = step d visited w first in
      let (later, within) = exhaust_each f ds w seen step rest in
      (
        Exhausts-trans visited w seen now later,
        λ x m. elim (Bool-cases (d == x)) [
          | inl same ↦
              subst (λ y. includes y seen ≡ true) ((eq_iff d x).0 same) (later.keeps d here_too)
          | inr other ↦ within x (ground arith)
        ],
      )
    where
      first_step :
          (r : Option (Bool × List String))
          → f d visited ≡ r
          → (w : List String) × (f d visited ≡ some (false, w))
            × (search_each f ds w ≡ some (false, seen))
      first_step none h = ground arith
      first_step (some (true, w)) h = ground arith
      first_step (some (false, w)) h = (w, h, ground arith)

  dfs-Exhausts :
      (fuel : ℕ) (id : String) (visited seen : List String)
      → dfs s target fuel id visited ≡ some (false, seen)
      → Exhausts visited seen × (includes id seen ≡ true)
  unfolding dfs
  dfs-Exhausts zero id visited seen e = cc
  dfs-Exhausts (suc fuel) id visited seen e = elim (Bool-cases (id == target)) [
    | inl same ↦ ground arith
    | inr other ↦ elim (Bool-cases (includes id visited)) [
      | inl old ↦
          let same : visited ≡ seen = ground arith in
          (
            subst (Exhausts visited) same (Exhausts-refl visited),
            subst (λ v. includes id v ≡ true) same old,
          )
      | inr new ↦
          let (ends, below) =
            exhaust_each (dfs s target fuel) (deps_of s id) (id ∷ visited) seen (dfs-Exhausts fuel)
              (ground arith) in
          let self : includes id (id ∷ visited) ≡ true = ground (arith, eq_refl id) in
          (
            record {
              keeps =
                  IsWithin-trans visited (id ∷ visited) seen (cons-IsWithin id visited) ends.keeps;
              settles = λ x m. elim (ends.settles x m) [
                | inr done ↦ inr done
                | inl listed ↦ elim (Bool-cases (id == x)) [
                  | inl e' ↦ inr (
                      subst (IsSettled seen) ((eq_iff id x).0 e')
                        (record { other = λ q. ground (arith, eq_iff id target); below = below }))
                  | inr ne ↦ inl (ground arith)
                ]
              ];
            },
            ends.keeps id self,
          )
    ]
  ]

  -- From a settled set that misses the target nothing reaches it.
  stays_inside :
      (seen : List String) (a b : String)
      → ((x : String) → includes x seen ≡ true → IsSettled seen x)
      → includes a seen ≡ true
      → Reach s a b
      → includes b seen ≡ true
  stays_inside seen a b closed m here = m
  stays_inside seen a b closed m (next {b = x} r e) =
      (closed x (stays_inside seen a x closed m r)).below b e

  pub dfs_complete :
      (fuel : ℕ) (id : String) (seen : List String)
      → dfs s target fuel id [] ≡ some (false, seen)
      → ¬ Reach s id target
  dfs_complete fuel id seen e r =
      let (ends, m) = dfs-Exhausts fuel id [] seen e in
      let closed : ((x : String) → includes x seen ≡ true → IsSettled seen x) =
        λ x h. elim (ends.settles x h) [ inl none_before ↦ cc | inr done ↦ done ] in
      (closed target (stays_inside seen id target closed m r)).other refl

-- The search for a cycle is exact, and its fuel suffices for every store: it answers yes if and only
-- if the blocker reaches the task along dependencies.
pub has_cycle_iff :
    (s : Store) (task_id blocker_id : String)
    → (has_cycle s task_id blocker_id ≡ true) ↔ Reach s blocker_id task_id
unfolding has_cycle
has_cycle_iff s task_id blocker_id =
    let (found, seen, e, _) =
      dfs-Returns s task_id (suc (suc (length s))) blocker_id []
        (omega (arith, unvisited-le-length s [])) in
    (
      λ h. dfs_sound s task_id (suc (suc (length s))) blocker_id [] seen (ground arith),
      λ r. elim (Bool-cases found) [
        | inl hit ↦ ground arith
        | inr miss ↦
            absurd (dfs_complete s task_id (suc (suc (length s))) blocker_id seen (ground arith) r)
      ],
    )
