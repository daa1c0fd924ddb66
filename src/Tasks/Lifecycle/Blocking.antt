-- ===== src/Tasks/Lifecycle/Blocking.antt =====
-- Blocking a task and unblocking it.
use aof.Prelude.{
  ℕ, String, true, false, none, some, lookup, insert, lookup-insert_self, [], ◌∷◌, ◌≡◌, refl, sym,
  ◌∙◌, ap, arith,
}
use aof.Tasks.Schema.{
  TaskStatus, ready, blocked, done, cancelled, deadletter, same, one_of, Task, is_valid_transition,
  valid_transitions,
}
use aof.Tasks.Store.{
  Store, return, get_task, write_task, transitioned, transition_task, no_patch, transition_returns,
}
use aof.Tasks.Lifecycle.{block_task, unblock_task, set_block_reason, clear_block}

valid_block :
    (st : TaskStatus)
    → same st blocked ≡ false
    → one_of st (done ∷ cancelled ∷ deadletter ∷ []) ≡ false
    → is_valid_transition st blocked ≡ true
unfolding is_valid_transition valid_transitions
valid_block st a b = ground arith

module _ (now : ℕ) (id : String) (s : Store) (t : Task) (found : lookup id s ≡ some t)
    (keyed : t.id ≡ id) where
  stored : (u : Task) → u.id ≡ t.id → lookup id (insert u.id u s) ≡ some u
  stored u same_id =
      ap (λ k. lookup k (insert u.id u s)) (sym (same_id ∙ keyed)) ∙ lookup-insert_self u.id u s

  -- A stored task, under its own identifier, that is neither blocked nor done, cancelled or a dead
  -- letter is blocked by `block_task`: no later guard refuses it. It gets the reason and keeps its lease.
  pub block_task_returns :
      (reason : String)
      → same t.status blocked ≡ false
      → one_of t.status (done ∷ cancelled ∷ deadletter ∷ []) ≡ false
      → (u : Task) × (s' : Store) × (block_task now id reason s ≡ (return u, s'))
        × (lookup id s' ≡ some u)
        × (u.status ≡ blocked)
        × (u.lease ≡ t.lease)
        × (u.metadata.block_reason ≡ some reason)
  unfolding block_task get_task write_task transitioned
  block_task_returns reason a b =
      let w : Task = record t { metadata = set_block_reason (some reason) t.metadata } in
      let u = transitioned now blocked no_patch w in
      let s1 = insert w.id w s in
      let valid : is_valid_transition w.status blocked ≡ true = valid_block w.status a b in
      let start : block_task now id reason s ≡ transition_task now id blocked no_patch s1 =
        simp (block_task, get_task, write_task, found, a, b) in
      (
        u,
        insert t.id u s1,
        start ∙ transition_returns now id blocked no_patch s1 w (stored w refl) a valid,
        ap (λ k. lookup id (insert k u s1)) keyed ∙ lookup-insert_self id u s1,
        refl,
        refl,
        refl,
      )

  -- A stored task, under its own identifier, that is blocked is ready after `unblock_task`, without lease, block reason or retry
  -- count.
  pub unblock_task_returns :
      t.status ≡ blocked
      → (u : Task) × (s' : Store) × (unblock_task now id s ≡ (return u, s'))
        × (lookup id s' ≡ some u)
        × (u.status ≡ ready)
        × (u.lease ≡ none)
        × (u.metadata ≡ clear_block t.metadata)
  unfolding unblock_task get_task write_task transitioned is_valid_transition valid_transitions
  unblock_task_returns e =
      let w : Task = record t { metadata = clear_block t.metadata } in
      let u = transitioned now ready no_patch w in
      let s1 = insert w.id w s in
      let start : unblock_task now id s ≡ transition_task now id ready no_patch s1 =
        let a : same t.status blocked ≡ true = rw e in
        simp (unblock_task, get_task, write_task, found, a) in
      (
        u,
        insert t.id u s1,
        start ∙ transition_returns now id ready no_patch s1 w (stored w refl) (rw e) (rw e),
        ap (λ k. lookup id (insert k u s1)) keyed ∙ lookup-insert_self id u s1,
        refl,
        refl,
        refl,
      )
