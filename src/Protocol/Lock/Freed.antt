-- ===== src/Protocol/Lock/Freed.antt =====
-- A call that is released, with the entry of the map that it deletes.
use aof.Prelude.{
  ℕ, ◌≤◌, String, true, false, Option, none, some, lookup, if◌then◌else◌, ◌==◌, eqb, ◌≡◌, refl, sym,
  ap, subst, ◌∙◌, arith, eq_iff, eq_refl, Bool-cases, text-cases, inl, inr, some_eq,
}
use aof.Protocol.Lock.{
  released, Call, LockManager, delete, is_released, has_started, in_phase, is_last, clean_up,
}
use aof.Protocol.Lock.Chain.{
  lookup-delete, fresh_moved, Behind-in_phase, ordered_moved, Entry-other, entry_task, Released,
  Entry, Inv,
}

module _ (m : LockManager) (n : ℕ) (c : Call) (v : Inv m) (at : m.calls n ≡ some c)
    (unreleased : is_released c.phase ≡ false) (begun : has_started c.phase ≡ true) where
  abbrev pub after_release : LockManager
  after_release = in_phase n c released m

  all-Released :
      ((i : ℕ) (d : Call) → m.calls i ≡ some d → d.task_id ≡ c.task_id → i ≤ n)
      → (i : ℕ) → Released after_release c.task_id i
  all-Released greatest i d e k = elim (Bool-cases (eqb i n)) [
    | inl is_n ↦
        let is_d : record c { phase = released } ≡ d = some_eq (sym (rw is_n refl) ∙ e) in
        ap (λ (x : Call). is_released x.phase) (sym is_d)
    | inr other ↦
        let old : m.calls i ≡ some d = sym (rw other refl) ∙ e in
        let bound = greatest i d old k in v.ordered n c at begun i (ground arith) d old k
  ]

  emptied : LockManager
  emptied = record after_release { locks = delete c.task_id m.locks }

  emptied-Entry :
      lookup c.task_id m.locks ≡ some n
      → (task : String) → Entry emptied task (lookup task (delete c.task_id m.locks))
  unfolding emptied
  emptied-Entry last task = elim (text-cases c.task_id task) [
    | inl own ↦
        let ((d, held, of_task, open_still), greatest) =
          subst (Entry m c.task_id) last (v.entry c.task_id) in
        rw (lookup-delete c.task_id task m.locks) (
          subst (λ t. Entry emptied t (if c.task_id == t then none else lookup t m.locks)) own
            (rw (eq_refl c.task_id) (all-Released greatest)))
    | inr other ↦ rw (lookup-delete c.task_id task m.locks) (
        rw other (
          Entry-other m n c released v at unreleased task (lookup task m.locks)
            (λ e.
              ground
                (arith, entry_task m n c released v at unreleased task e, eq_iff c.task_id task))
            (v.entry task)))
  ]

  kept-Entry :
      is_last n (lookup c.task_id m.locks) ≡ false
      → (task : String) → Entry after_release task (lookup task m.locks)
  kept-Entry other task =
      Entry-other m n c released v at unreleased task (lookup task m.locks)
        (λ e.
          let own = entry_task m n c released v at unreleased task e in
          let named_own : lookup c.task_id m.locks ≡ some n =
            subst (λ k. lookup k m.locks ≡ some n) (sym own) e in
          let no : is_last n (some n) ≡ false = subst (λ o. is_last n o ≡ false) named_own other in
          ground arith)
        (v.entry task)

  pub freed-Inv : Inv (clean_up n c.task_id after_release)
  unfolding emptied
  freed-Inv =
      let fresh = fresh_moved m n c released v at unreleased in
      let behind = Behind-in_phase m n c released v at unreleased in
      let ordered = ordered_moved m n c released v at unreleased (v.ordered n c at begun) in
      elim (Bool-cases (is_last n (lookup c.task_id m.locks))) [
        | inl last ↦
            let names_n : lookup c.task_id m.locks ≡ some n =
              last_named (lookup c.task_id m.locks) last in
            rw last (record {
              fresh = fresh;
              behind = behind;
              ordered = ordered;
              entry = emptied-Entry names_n;
            })
        | inr other ↦
            rw other (record {
              fresh = fresh;
              behind = behind;
              ordered = ordered;
              entry = kept-Entry other;
            })
      ]
    where
      last_named : (o : Option ℕ) → is_last n o ≡ true → o ≡ some n
      last_named none h = cc
      last_named (some k) h = ground arith
