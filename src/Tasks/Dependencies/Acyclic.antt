-- ===== src/Tasks/Dependencies/Acyclic.antt =====
-- Adding a dependency keeps the graph without cycles.
use aof.Prelude.{
  includes-snoc, ℕ, String, true, false, some, [], ◌∷◌, ◌++◌, lookup, insert, lookup-insert,
  includes, ◌≡◌, sym, ◌∙◌, ap, arith, subst, if◌then◌else◌, ◌==◌, Bool-cases, Option-cases, inl,
  inr, ◌⊎◌, eq_iff, text-cases,
}
use aof.Tasks.Schema.{Task, done, cancelled, one_of}
use aof.Tasks.Store.{Store, get_task, write_task}
use aof.Tasks.Dependencies.{
  deps_of, has_cycle, depend_on, check_cycle, insert_dependency, add_dependency,
}
use aof.Tasks.Dependencies.Graph.{Needs, Reach, here, next, Reach-trans, IsAcyclic}
use aof.Tasks.Dependencies.Search.{has_cycle_iff}

module _ (now : ℕ) (id blocker : String) (s : Store) where
  -- What a call that adds the dependency wrote.
  abbrev Added : Store → Type 0
  Added s' =
      (t : Task) × (lookup id s ≡ some t)
      × (has_cycle s id blocker ≡ false)
      × (s' ≡ insert t.id (depend_on now blocker t) s)

  insert_dependency-cases :
      (t : Task)
      → lookup id s ≡ some t
      → ((insert_dependency now id blocker t s).1 ≡ s)
        ⊎ Added (insert_dependency now id blocker t s).1
  unfolding insert_dependency check_cycle write_task
  insert_dependency-cases t found = elim (Bool-cases (has_cycle s id blocker)) [
    | inl circular ↦ inl (simp (insert_dependency, check_cycle, circular))
    | inr free ↦ inr (t, found, free, simp (insert_dependency, check_cycle, write_task, free))
  ]

  add_dependency-cases :
      ((add_dependency now id blocker s).1 ≡ s) ⊎ Added (add_dependency now id blocker s).1
  unfolding add_dependency get_task
  add_dependency-cases = elim (Option-cases (lookup id s)) [
    | inl none_found ↦ inl (simp (add_dependency, get_task, none_found))
    | inr (t, found) ↦ elim (Option-cases (lookup blocker s)) [
      | inl missing ↦ inl (simp (add_dependency, get_task, found, missing))
      | inr (b, there) ↦ elim (Bool-cases (one_of t.status (done ∷ cancelled ∷ []))) [
        | inl over ↦ inl (simp (add_dependency, get_task, found, there, over))
        | inr alive ↦ elim (Bool-cases (id == blocker)) [
          | inl itself ↦ inl (simp (add_dependency, get_task, found, there, alive, itself))
          | inr other ↦ elim (Bool-cases (includes blocker t.depends_on)) [
            | inl known ↦ inl (simp (add_dependency, get_task, found, there, alive, other, known))
            | inr new ↦
                let e : add_dependency now id blocker s ≡ insert_dependency now id blocker t s =
                  simp (add_dependency, get_task, found, there, alive, other, new) in
                subst (λ x. (x.1 ≡ s) ⊎ Added x.1) (sym e) (insert_dependency-cases t found)
          ]
        ]
      ]
    ]
  ]

  module _ (s' : Store) (t : Task) (found : lookup id s ≡ some t) (keyed : t.id ≡ id)
      (written : s' ≡ insert t.id (depend_on now blocker t) s) where
    new_deps :
        (a : String)
        → deps_of s' a ≡ (if id == a then t.depends_on ++ blocker ∷ [] else deps_of s a)
    unfolding deps_of depend_on
    new_deps a =
        let at : lookup a s' ≡ (if id == a then some (depend_on now blocker t) else lookup a s) =
          ap (lookup a) written ∙ lookup-insert t.id a (depend_on now blocker t) s ∙ rw keyed in
        elim (Bool-cases (id == a)) [
          | inl here_it ↦ simp (deps_of, at, here_it, depend_on)
          | inr other ↦ simp (deps_of, at, other)
        ]

    -- An edge of the new graph is an old one, or the new one.
    new_edge : (a b : String) → Needs s' a b → Needs s a b ⊎ ((a ≡ id) × (b ≡ blocker))
    unfolding deps_of
    new_edge a b e = elim (text-cases id a) [
      | inr other ↦ inl (ap (includes b) (sym (new_deps a ∙ rw other)) ∙ e)
      | inl same ↦ elim (text-cases blocker b) [
        | inl new ↦ inr (sym same, sym new)
        | inr old ↦ inl (
            let own : deps_of s' a ≡ t.depends_on ++ blocker ∷ [] =
              new_deps a ∙ ground (arith, eq_iff id a) in
            let kept : includes b t.depends_on ≡ true =
              ground (arith, ap (includes b) own, includes-snoc b blocker t.depends_on) in
            ap (includes b) (ap (deps_of s) (sym same) ∙ rw (deps_of, found)) ∙ kept)
      ]
    ]

    new_walk : (a c : String) → Reach s' a c → Reach s a c ⊎ (Reach s a id × Reach s blocker c)
    new_walk a c here = inl here
    new_walk a c (next {b = b} p e) = elim (new_walk a b p) [
      | inl q ↦ elim (new_edge b c e) [
        | inl old ↦ inl (next q old)
        | inr (at, to) ↦
            inr (subst (λ x. Reach s a x) at q, subst (λ x. Reach s blocker x) (sym to) here)
      ]
      | inr (q, r) ↦ elim (new_edge b c e) [
        | inl old ↦ inr (q, next r old)
        | inr (at, to) ↦ inr (q, subst (λ x. Reach s blocker x) (sym to) here)
      ]
    ]

    added-IsAcyclic : IsAcyclic s → ¬ Reach s blocker id → IsAcyclic s'
    added-IsAcyclic old free a b e walk = elim (new_edge a b e) [
      | inl edge ↦ elim (new_walk b a walk) [
        | inl back ↦ old a b edge back
        | inr (q, r) ↦ free (Reach-trans (next r edge) q)
      ]
      | inr (at, to) ↦ elim (new_walk b a walk) [
        | inl back ↦ free (subst (λ x. Reach s x id) to (subst (λ x. Reach s b x) at back))
        | inr (q, r) ↦ free (subst (λ x. Reach s x id) to q)
      ]
    ]

-- If no task of the store depends on itself by a chain, and the task `id`, if the store holds it, is
-- there under its own identifier, then none does after `add_dependency`, whatever it answers.
pub add_dependency-IsAcyclic :
    (now : ℕ) (id blocker : String) (s : Store)
    → ((t : Task) → lookup id s ≡ some t → t.id ≡ id)
    → IsAcyclic s
    → IsAcyclic (add_dependency now id blocker s).1
add_dependency-IsAcyclic now id blocker s keyed acyclic =
    elim (add_dependency-cases now id blocker s) [
      | inl e ↦ subst IsAcyclic (sym e) acyclic
      | inr (t, found, free, e) ↦
          added-IsAcyclic now id blocker s _ t found (keyed t found) e acyclic
            (λ r. let h = (has_cycle_iff s id blocker).1 r in ground arith)
    ]
