-- ===== src/Scheduler/Circular/Marked.antt =====
-- A task that the search marks is on a cycle.
use aof.Prelude.{
  ℕ, zero, suc, String, true, some, List, [], ◌∷◌, includes, includes-snoc, ◌≡◌, subst, sym, arith,
  eq_iff, eq_refl, ◌==◌, Bool-cases, Option-cases, inl, inr, some_eq,
}
use aof.Tasks.Schema.{Task}
use aof.Tasks.Store.{Store}
use aof.Tasks.Dependencies.{deps_of}
use aof.Tasks.Dependencies.Graph.{Needs, Reach, here, next, Reach-trans}
use aof.Scheduler.Circular.{
  Marks, Visit, add_one, add_all, cycle_from, detect_each, detect_circular_deps, start_at,
  detect_all,
}

-- A task that depends on itself, by some chain.
abbrev pub IsOnCycle : Store → String → Type 0
IsOnCycle s a = (b : String) × Needs s a b × Reach s b a

abbrev pub AllOnCycle : Store → List String → Type 0
AllOnCycle s marked = (x : String) → includes x marked ≡ true → IsOnCycle s x

module _ (s : Store) where
  -- Each task of the stack depends on the next newer one, and the newest on the given one.
  abbrev Chain : List String → String → Type 0
  Chain [] id = Unit
  Chain (x ∷ stack) id = Needs s x id × Chain stack x

  -- A chain of at least one dependency.
  abbrev Leads : String → String → Type 0
  Leads a c = (b : String) × Needs s a b × Reach s b c

  Chain-Leads :
      (stack : List String) (id y : String) → Chain stack id → includes y stack ≡ true → Leads y id
  Chain-Leads [] id y c m = cc
  Chain-Leads (x ∷ stack) id y (needs, c) m = elim (Bool-cases (x == y)) [
    | inl same ↦ (id, subst (λ z. Needs s z id) ((eq_iff x y).0 same) needs, here)
    | inr other ↦
        let (b, first, walk) = Chain-Leads stack x y c (ground arith) in (b, first, next walk needs)
  ]

  Leads-Reach : (a b : String) → Leads a b → Reach s a b
  Leads-Reach a b (c, first, walk) = Reach-trans (next here first) walk

  -- What the marked part of the stack holds is reached from its oldest task.
  reached_from :
      (stack : List String) (z id y : String)
      → Chain stack z
      → includes id stack ≡ true
      → includes y (cycle_from id stack) ≡ true
      → Reach s id y
  unfolding cycle_from
  reached_from [] z id y c m k = cc
  reached_from (x ∷ stack) z id y (needs, c) m k = elim (Bool-cases (x == id)) [
    | inl last ↦
        let same : x ≡ y = ground (arith, eq_iff x y) in
        subst (Reach s id) same (subst (λ w. Reach s id w) (sym ((eq_iff x id).0 last)) here)
    | inr older ↦ elim (Bool-cases (x == y)) [
      | inl it ↦
          subst (Reach s id) ((eq_iff x y).0 it)
            (Leads-Reach id x (Chain-Leads stack x id c (ground arith)))
      | inr deeper ↦ reached_from stack x id y c (ground arith) (ground arith)
    ]
  ]

  in_stack :
      (stack : List String) (id y : String)
      → includes y (cycle_from id stack) ≡ true
      → includes y stack ≡ true
  unfolding cycle_from
  in_stack [] id y k = cc
  in_stack (x ∷ stack) id y k = ground (arith, in_stack stack id y)

  cycle_from-AllOnCycle :
      (stack : List String) (id : String)
      → Chain stack id
      → includes id stack ≡ true
      → AllOnCycle s (cycle_from id stack)
  cycle_from-AllOnCycle stack id c m y k =
      let (b, first, walk) = Chain-Leads stack id y c (in_stack stack id y k) in
      (b, first, Reach-trans walk (reached_from stack id id y c m k))

  add_one-AllOnCycle :
      (x : String) (marked : List String)
      → IsOnCycle s x
      → AllOnCycle s marked
      → AllOnCycle s (add_one x marked)
  add_one-AllOnCycle x marked c h y k = elim (Bool-cases (x == y)) [
    | inl same ↦ subst (IsOnCycle s) ((eq_iff x y).0 same) c
    | inr other ↦ h y (ground (arith, includes-snoc y x marked))
  ]

  add_all-AllOnCycle :
      (xs marked : List String)
      → AllOnCycle s xs
      → AllOnCycle s marked
      → AllOnCycle s (add_all xs marked)
  unfolding add_all
  add_all-AllOnCycle [] marked c h = h
  add_all-AllOnCycle (x ∷ xs) marked c h =
      add_all-AllOnCycle xs (add_one x marked) (λ y m. c y (ground arith))
        (add_one-AllOnCycle x marked (c x (ground (arith, eq_refl x))) h)

  detect_each-AllOnCycle :
      (f : String → Visit) (ds : List String) (m n : Marks)
      → ((d : String) (v w : Marks)
          → includes d ds ≡ true
          → f d v ≡ some w
          → AllOnCycle s v.circular
          → AllOnCycle s w.circular)
      → detect_each f ds m ≡ some n
      → AllOnCycle s m.circular
      → AllOnCycle s n.circular
  unfolding detect_each
  detect_each-AllOnCycle f [] m n step e h =
      subst (λ (v : Marks). AllOnCycle s v.circular) (some_eq e) h
  detect_each-AllOnCycle f (d ∷ ds) m n step e h = elim (Option-cases (f d m)) [
    | inl out ↦ ground arith
    | inr (v, first) ↦
        detect_each-AllOnCycle f ds v n (λ x a b i. step x a b (ground arith)) (ground arith)
          (step d m v (ground (arith, eq_refl d)) first h)
  ]

  detect-AllOnCycle :
      (fuel : ℕ) (stack : List String) (id : String) (m n : Marks)
      → Chain stack id
      → detect_circular_deps s fuel stack id m ≡ some n
      → AllOnCycle s m.circular
      → AllOnCycle s n.circular
  unfolding detect_circular_deps
  detect-AllOnCycle zero stack id m n c e h = cc
  detect-AllOnCycle (suc fuel) stack id m n c e h = elim (Bool-cases (includes id stack)) [
    | inl back ↦
        let marked : record m { circular = add_all (cycle_from id stack) m.circular } ≡ n =
          some_eq (ground arith) in
        subst (λ (v : Marks). AllOnCycle s v.circular) marked
          (add_all-AllOnCycle (cycle_from id stack) m.circular
            (cycle_from-AllOnCycle stack id c back) h)
    | inr fresh ↦ elim (Bool-cases (includes id m.visited)) [
      | inl old ↦
          let same : m ≡ n = some_eq (ground arith) in
          subst (λ (v : Marks). AllOnCycle s v.circular) same h
      | inr new ↦
          detect_each-AllOnCycle (detect_circular_deps s fuel (id ∷ stack)) (deps_of s id)
            (record m { visited = id ∷ m.visited }) n
            (λ d v w i. detect-AllOnCycle fuel (id ∷ stack) d v w (i, c)) (ground arith) h
    ]
  ]

  start-AllOnCycle :
      (fuel : ℕ) (t : Task) (m n : Marks)
      → start_at s fuel t m ≡ some n
      → AllOnCycle s m.circular
      → AllOnCycle s n.circular
  unfolding start_at
  start-AllOnCycle fuel t m n e h = elim (Bool-cases (includes t.id m.visited)) [
    | inl old ↦
        let same : m ≡ n = some_eq (ground arith) in
        subst (λ (v : Marks). AllOnCycle s v.circular) same h
    | inr new ↦ detect-AllOnCycle fuel [] t.id m n tt (ground arith) h
  ]

  pub detect_all-AllOnCycle :
      (fuel : ℕ) (ts : List Task) (m n : Marks)
      → detect_all s fuel ts m ≡ some n
      → AllOnCycle s m.circular
      → AllOnCycle s n.circular
  unfolding detect_all
  detect_all-AllOnCycle fuel [] m n e h =
      let same : m ≡ n = some_eq e in subst (λ (v : Marks). AllOnCycle s v.circular) same h
  detect_all-AllOnCycle fuel (t ∷ ts) m n e h = elim (Option-cases (start_at s fuel t m)) [
    | inl out ↦ ground arith
    | inr (v, first) ↦
        detect_all-AllOnCycle fuel ts v n (ground arith) (start-AllOnCycle fuel t m v first h)
  ]
