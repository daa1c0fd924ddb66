-- ===== src/Scheduler/Circular/Settled.antt =====
-- A search that marks nothing has met no cycle.
use aof.Prelude.{
  ℕ, zero, suc, String, true, false, some, List, [], ◌∷◌, includes, ◌≡◌, refl, subst, sym, ap, ◌∙◌,
  arith, eq_iff, Bool-cases, Option-cases, inl, inr, ◌⊎◌, some_eq, text-cases,
}
use aof.Tasks.Schema.{Task}
use aof.Tasks.Store.{Store}
use aof.Tasks.Dependencies.{deps_of}
use aof.Tasks.Dependencies.Graph.{Needs, Reach, here, next}
use aof.Scheduler.Circular.{
  Marks, Visit, add_one, add_all, cycle_from, detect_each, detect_circular_deps, start_at,
  detect_all,
}
use aof.Scheduler.Circular.Marked.{IsOnCycle}

abbrev pub listed_ids : List Task → List String
listed_ids [] = []
listed_ids (t ∷ ts) = t.id ∷ listed_ids ts

-- Every chain of dependencies from a task ends.
pub data Ends (s : Store) : String → Type 0 where
  ends : (a : String) → ((b : String) → Needs s a b → Ends s b) → Ends s a

module _ (s : Store) where
  step_first :
      {a b c : String} → Reach s a b → Needs s b c → (d : String) × Needs s a d × Reach s d c
  step_first {c = c} here e = (c, e, here)
  step_first (next p f) e = let (d, first, walk) = step_first p f in (d, first, next walk e)

  pub Ends-uncycled : (a : String) → Ends s a → ¬ IsOnCycle s a
  Ends-uncycled a (ends _ below) (b, first, walk) =
      Ends-uncycled b (below b first) (step_first walk first)

  -- Marks are never taken back.
  add_one-empty : (x : String) (marked : List String) → add_one x marked ≡ [] → marked ≡ []
  add_one-empty x [] h = refl
  add_one-empty x (y ∷ ys) h = ground arith

  add_all-empty : (xs marked : List String) → add_all xs marked ≡ [] → marked ≡ []
  unfolding add_all
  add_all-empty [] marked h = h
  add_all-empty (x ∷ xs) marked h = add_one-empty x marked (add_all-empty xs (add_one x marked) h)

  add_one_marks : (x : String) (marked : List String) → ¬ (add_one x marked ≡ [])
  add_one_marks x [] h = cc
  add_one_marks x (y ∷ ys) h = ground arith

  add_all_marks :
      (y : String) (xs marked : List String) → includes y xs ≡ true → ¬ (add_all xs marked ≡ [])
  unfolding add_all
  add_all_marks y [] marked m h = cc
  add_all_marks y (x ∷ xs) marked m h =
      add_one_marks x marked (add_all-empty xs (add_one x marked) h)

  marks_cycle :
      (id : String) (stack : List String)
      → includes id stack ≡ true
      → includes id (cycle_from id stack) ≡ true
  unfolding cycle_from
  marks_cycle id [] m = cc
  marks_cycle id (x ∷ stack) m = ground (arith, marks_cycle id stack)

  -- A visit that leaves no mark found none.
  abbrev Keeps : Visit → Type 0
  Keeps f = (m n : Marks) → f m ≡ some n → n.circular ≡ [] → m.circular ≡ []

  detect_each-Keeps :
      (f : String → Visit) (ds : List String)
      → ((d : String) → Keeps (f d))
      → Keeps (detect_each f ds)
  unfolding detect_each
  detect_each-Keeps f [] k m n e h =
      let same : m ≡ n = some_eq e in ap (λ (v : Marks). v.circular) same ∙ h
  detect_each-Keeps f (d ∷ ds) k m n e h = elim (Option-cases (f d m)) [
    | inl out ↦ ground arith
    | inr (v, first) ↦ k d m v first (detect_each-Keeps f ds k v n (ground arith) h)
  ]

  detect-Keeps :
      (fuel : ℕ) (stack : List String) (id : String) → Keeps (detect_circular_deps s fuel stack id)
  unfolding detect_circular_deps
  detect-Keeps zero stack id m n e h = cc
  detect-Keeps (suc fuel) stack id m n e h = elim (Bool-cases (includes id stack)) [
    | inl back ↦
        let same : record m { circular = add_all (cycle_from id stack) m.circular } ≡ n =
          some_eq (ground arith) in
        add_all-empty (cycle_from id stack) m.circular (ap (λ (v : Marks). v.circular) same ∙ h)
    | inr fresh ↦ elim (Bool-cases (includes id m.visited)) [
      | inl old ↦
          let same : m ≡ n = some_eq (ground arith) in ap (λ (v : Marks). v.circular) same ∙ h
      | inr new ↦
          detect_each-Keeps (detect_circular_deps s fuel (id ∷ stack)) (deps_of s id)
            (detect-Keeps fuel (id ∷ stack)) (record m { visited = id ∷ m.visited }) n
            (ground arith) h
    ]
  ]

  -- What was visited is on the stack, or every chain from it ends.
  abbrev IsSettled : List String → Marks → Type 0
  IsSettled stack m =
      (x : String) → includes x m.visited ≡ true → (includes x stack ≡ true) ⊎ Ends s x

  detect_each-IsSettled :
      (f : String → Visit) (stack : List String) (ds : List String) (m n : Marks)
      → ((d : String) → Keeps (f d))
      → ((d : String) (v w : Marks)
          → f d v ≡ some w
          → w.circular ≡ []
          → IsSettled stack v
          → IsSettled stack w × Ends s d)
      → detect_each f ds m ≡ some n
      → n.circular ≡ []
      → IsSettled stack m
      → IsSettled stack n × ((d : String) → includes d ds ≡ true → Ends s d)
  unfolding detect_each
  detect_each-IsSettled f stack [] m n k step e h g =
      let same : m ≡ n = some_eq e in (subst (λ (v : Marks). IsSettled stack v) same g, λ d i. cc)
  detect_each-IsSettled f stack (d ∷ ds) m n k step e h g = elim (Option-cases (f d m)) [
    | inl out ↦ ground arith
    | inr (v, first) ↦
        let rest : detect_each f ds v ≡ some n = ground arith in
        let (g', d_ends) = step d m v first (detect_each-Keeps f ds k v n rest h) g in
        let (last, all_end) = detect_each-IsSettled f stack ds v n k step rest h g' in
        (
          last,
          λ x i. elim (text-cases d x) [
            | inl same ↦ subst (Ends s) same d_ends
            | inr other ↦ all_end x (ground arith)
          ],
        )
  ]

  detect-IsSettled :
      (fuel : ℕ) (stack : List String) (id : String) (m n : Marks)
      → detect_circular_deps s fuel stack id m ≡ some n
      → n.circular ≡ []
      → IsSettled stack m
      → IsSettled stack n × Ends s id
  unfolding detect_circular_deps
  detect-IsSettled zero stack id m n e h g = cc
  detect-IsSettled (suc fuel) stack id m n e h g = elim (Bool-cases (includes id stack)) [
    | inl back ↦
        let same : record m { circular = add_all (cycle_from id stack) m.circular } ≡ n =
          some_eq (ground arith) in
        absurd (
          add_all_marks id (cycle_from id stack) m.circular (marks_cycle id stack back)
            (ap (λ (v : Marks). v.circular) same ∙ h))
    | inr fresh ↦ elim (Bool-cases (includes id m.visited)) [
      | inl old ↦
          let same : m ≡ n = some_eq (ground arith) in
          (
            subst (λ (v : Marks). IsSettled stack v) same g,
            elim (g id old) [
              | inl on_stack ↦ let no : true ≡ false = sym on_stack ∙ fresh in cc
              | inr done ↦ done
            ],
          )
      | inr new ↦
          let entered : Marks = record m { visited = id ∷ m.visited } in
          let (g', below) =
            detect_each-IsSettled (detect_circular_deps s fuel (id ∷ stack)) (id ∷ stack)
              (deps_of s id) entered n (detect-Keeps fuel (id ∷ stack))
              (λ d v w. detect-IsSettled fuel (id ∷ stack) d v w) (ground arith) h
              (λ x i. elim (text-cases id x) [
                | inl same ↦ inl (ground (arith, eq_iff id x))
                | inr other ↦ elim (g x (ground arith)) [
                  | inl on_stack ↦ inl (ground arith)
                  | inr done ↦ inr done
                ]
              ]) in
          let id_ends : Ends s id = ends id below in
          (
            λ x i. elim (text-cases id x) [
              | inl same ↦ inr (subst (Ends s) same id_ends)
              | inr other ↦ elim (g' x i) [
                | inl on_stack ↦ inl (ground arith)
                | inr done ↦ inr done
              ]
            ],
            id_ends,
          )
    ]
  ]

  start-IsSettled :
      (fuel : ℕ) (t : Task) (m n : Marks)
      → start_at s fuel t m ≡ some n
      → n.circular ≡ []
      → IsSettled [] m
      → IsSettled [] n × Ends s t.id
  unfolding start_at
  start-IsSettled fuel t m n e h g = elim (Bool-cases (includes t.id m.visited)) [
    | inl old ↦
        let same : m ≡ n = some_eq (ground arith) in
        (
          subst (λ (v : Marks). IsSettled [] v) same g,
          elim (g t.id old) [ inl on_stack ↦ cc | inr done ↦ done ],
        )
    | inr new ↦ detect-IsSettled fuel [] t.id m n (ground arith) h g
  ]

  start-Keeps : (fuel : ℕ) (t : Task) → Keeps (start_at s fuel t)
  unfolding start_at
  start-Keeps fuel t m n e h = elim (Bool-cases (includes t.id m.visited)) [
    | inl old ↦ let same : m ≡ n = some_eq (ground arith) in ap (λ (v : Marks). v.circular) same ∙ h
    | inr new ↦ detect-Keeps fuel [] t.id m n (ground arith) h
  ]

  detect_all-Keeps : (fuel : ℕ) (ts : List Task) → Keeps (detect_all s fuel ts)
  unfolding detect_all
  detect_all-Keeps fuel [] m n e h =
      let same : m ≡ n = some_eq e in ap (λ (v : Marks). v.circular) same ∙ h
  detect_all-Keeps fuel (t ∷ ts) m n e h = elim (Option-cases (start_at s fuel t m)) [
    | inl out ↦ ground arith
    | inr (v, first) ↦ start-Keeps fuel t m v first (detect_all-Keeps fuel ts v n (ground arith) h)
  ]

  pub detect_all-Ends :
      (fuel : ℕ) (ts : List Task) (m n : Marks)
      → detect_all s fuel ts m ≡ some n
      → n.circular ≡ []
      → IsSettled [] m
      → (x : String) → includes x (listed_ids ts) ≡ true
      → Ends s x
  unfolding detect_all
  detect_all-Ends fuel [] m n e h g x i = cc
  detect_all-Ends fuel (t ∷ ts) m n e h g x i = elim (Option-cases (start_at s fuel t m)) [
    | inl out ↦ ground arith
    | inr (v, first) ↦
        let rest : detect_all s fuel ts v ≡ some n = ground arith in
        let (g', t_ends) =
          start-IsSettled fuel t m v first (detect_all-Keeps fuel ts v n rest h) g in
        elim (text-cases t.id x) [
          | inl same ↦ subst (Ends s) same t_ends
          | inr other ↦ detect_all-Ends fuel ts v n rest h g' x (ground arith)
        ]
  ]
