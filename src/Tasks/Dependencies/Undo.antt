-- ===== src/Tasks/Dependencies/Undo.antt =====
-- Adding a dependency and removing it again.
use aof.Prelude.{
  includes-snoc, ℕ, String, true, false, some, lookup, insert, lookup-insert_self, List, [], ◌∷◌,
  ◌++◌, ◌≡◌, refl, ◌∙◌, ap, arith, ◌==◌, includes, eq_refl,
}
use aof.Tasks.Schema.{Task, done, cancelled, one_of}
use aof.Tasks.Store.{Store, return, get_task, write_task}
use aof.Tasks.Dependencies.{
  has_cycle, depend_on, check_cycle, insert_dependency, add_dependency, remove_first,
  without_dependency, delete_dependency, remove_dependency,
}

remove_first-snoc :
    (d : String) (xs : List String) → includes d xs ≡ false → remove_first d (xs ++ d ∷ []) ≡ xs
unfolding remove_first
remove_first-snoc d [] h = rw (eq_refl d)
remove_first-snoc d (x ∷ xs) h = ground (arith, remove_first-snoc d xs)

module _ (now later : ℕ) (id blocker : String) (s : Store) (t b : Task) where
  add_returns :
      lookup id s ≡ some t
      → lookup blocker s ≡ some b
      → one_of t.status (done ∷ cancelled ∷ []) ≡ false
      → (id == blocker) ≡ false
      → includes blocker t.depends_on ≡ false
      → has_cycle s id blocker ≡ false
      → add_dependency now id blocker s
        ≡ (return (depend_on now blocker t), insert t.id (depend_on now blocker t) s)
  unfolding add_dependency get_task insert_dependency check_cycle write_task
  add_returns found there alive other new free =
      let e : add_dependency now id blocker s ≡ insert_dependency now id blocker t s =
        simp (add_dependency, get_task, found, there, alive, other, new) in
      e ∙ simp (insert_dependency, check_cycle, write_task, free)

  remove_returns :
      (s1 : Store) (u : Task)
      → lookup id s1 ≡ some u
      → one_of u.status (done ∷ cancelled ∷ []) ≡ false
      → includes blocker u.depends_on ≡ true
      → remove_dependency later id blocker s1 ≡ (
        return (without_dependency later blocker u),
        insert u.id (without_dependency later blocker u) s1,
      )
  unfolding remove_dependency get_task delete_dependency write_task
  remove_returns s1 u found alive there =
      simp (remove_dependency, get_task, delete_dependency, write_task, found, alive, there)

  -- A dependency that `add_dependency` accepts and that is new is taken back by
  -- `remove_dependency`: for a task stored under its own identifier, that is neither done nor
  -- cancelled, and another stored task that does not reach it, both calls return, and the task
  -- is as it was but for the time of its update.
  pub remove_dependency-add_dependency :
      lookup id s ≡ some t
      → t.id ≡ id
      → lookup blocker s ≡ some b
      → one_of t.status (done ∷ cancelled ∷ []) ≡ false
      → (id == blocker) ≡ false
      → includes blocker t.depends_on ≡ false
      → has_cycle s id blocker ≡ false
      → (u v : Task) × (s1 s2 : Store) × (add_dependency now id blocker s ≡ (return u, s1))
        × (remove_dependency later id blocker s1 ≡ (return v, s2))
        × (lookup id s2 ≡ some v)
        × (v ≡ record t { updated_at = later })
  unfolding depend_on without_dependency
  remove_dependency-add_dependency found keyed there alive other new free =
      let u = depend_on now blocker t in
      let v = without_dependency later blocker u in
      let s1 = insert t.id u s in
      let s2 = insert t.id v s1 in
      let found1 : lookup id s1 ≡ some u =
        ap (λ k. lookup id (insert k u s)) keyed ∙ lookup-insert_self id u s in
      let now_there : includes blocker u.depends_on ≡ true =
        includes-snoc blocker blocker t.depends_on ∙ rw (eq_refl blocker) (rw new refl) in
      (
        u,
        v,
        s1,
        s2,
        add_returns found there alive other new free,
        remove_returns s1 u found1 alive now_there,
        ap (λ k. lookup id (insert k v s1)) keyed ∙ lookup-insert_self id v s1,
        ap (λ ds. record t { depends_on = ds; updated_at = later })
            (remove_first-snoc blocker t.depends_on new),
      )
