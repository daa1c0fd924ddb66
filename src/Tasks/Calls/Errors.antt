-- ===== src/Tasks/Calls/Errors.antt =====
-- What an operation that throws leaves of the store.
use aof.Prelude.{
  ℕ, String, not, ◌&&◌, ◌||◌, Option, none, some, lookup, [], ◌∷◌, ◌≡◌, sym, ap, subst, arith, ◌==◌,
  Bool-cases, Option-cases, inl, inr, ◌⊎◌, includes,
}
use aof.Tasks.Schema.{
  TaskStatus, ready, in_progress, blocked, done, cancelled, deadletter, same, one_of, Task,
  Metadata,
}
use aof.Tasks.Store.{
  Store, Answer, return, StoreError, get_task, write_task, settle_transition, transition_task,
  no_patch,
}
use aof.Tasks.Lifecycle.{block_task, unblock_task, cancel_task}
use aof.Tasks.Lifecycle.Blocking.{block_task_returns, unblock_task_returns}
use aof.Tasks.Lease.{acquire_lease, renew_lease, release_lease, is_lease_active}
use aof.Tasks.Lease.Exclusive.{acquire_lease_succeeds, refused_status, held_by}
use aof.Tasks.Failures.{
  track_dispatch_failure, transition_to_deadletter, deadletter_patch, reset_dispatch_failures,
}
use aof.Tasks.Update.{UpdatePatch, update_task}
use aof.Tasks.Dependencies.{
  add_dependency, remove_dependency, insert_dependency, delete_dependency, check_cycle,
}
use aof.Tasks.Calls.{
  Operation, move, block, unblock, cancel, acquire, renew, release, track_failure, deadletter_task,
  reset, depend, undepend, revise, perform, thrown, perform_error,
}
use aof.Tasks.Calls.Changes.{is_over}
use aof.Tasks.Calls.Safe.{WellFormed, perform_missing}

-- A call that throws leaves the store as it was.
abbrev IsAtomic : {A : Type 0} → Answer A × Store → Store → Type 0
IsAtomic r s = (thrown r.0 ≡ none) ⊎ (r.1 ≡ s)

IsAtomic-returns :
    {A : Type 0} (r : Answer A × Store) (s s' : Store) (a : A) → r ≡ (return a, s') → IsAtomic r s
IsAtomic-returns r s s' a e = inl (ap (λ (x : Answer _ × Store). thrown x.0) e)

module _ (now : ℕ) (id : String) (s : Store) (t : Task) (found : lookup id s ≡ some t)
    (keyed : t.id ≡ id) where
  transition-IsAtomic :
      (to : TaskStatus) (patch : Metadata → Metadata)
      → IsAtomic (transition_task now id to patch s) s
  unfolding transition_task get_task settle_transition write_task
  transition-IsAtomic to patch = ground arith

  block-IsAtomic : (reason : String) → IsAtomic (block_task now id reason s) s
  unfolding block_task get_task write_task
  block-IsAtomic reason = elim (Bool-cases (same t.status blocked)) [
    | inl already ↦ inr (simp (block_task, get_task, found, already))
    | inr a ↦ elim (Bool-cases (one_of t.status (done ∷ cancelled ∷ deadletter ∷ []))) [
      | inl over ↦ inr (simp (block_task, get_task, found, a, over))
      | inr b ↦
          let (u, s', e, _, _, _, _) = block_task_returns now id s t found keyed reason a b in
          IsAtomic-returns _ s s' u e
    ]
  ]

  unblock-IsAtomic : IsAtomic (unblock_task now id s) s
  unfolding unblock_task get_task write_task
  unblock-IsAtomic = elim (Bool-cases (same t.status blocked)) [
    | inr a ↦ inr (simp (unblock_task, get_task, found, a))
    | inl a ↦
        let (u, s', e, _, _, _, _) = unblock_task_returns now id s t found keyed (ground arith) in
        IsAtomic-returns _ s s' u e
  ]

  cancel-IsAtomic : (reason : Option String) → IsAtomic (cancel_task now id reason s) s
  unfolding cancel_task get_task write_task
  cancel-IsAtomic reason = ground arith

  acquire-IsAtomic : (ttl : ℕ) (agent : String) → IsAtomic (acquire_lease now ttl id agent s) s
  unfolding acquire_lease get_task write_task is_lease_active
  acquire-IsAtomic ttl agent =
      elim (Bool-cases (same t.status ready || same t.status in_progress)) [
        | inr refused ↦ inr (
            ap (λ (x : Answer Task × Store). x.1)
              (refused_status now ttl id agent s t found refused))
        | inl goes ↦
            elim (Bool-cases (is_lease_active now t.lease && not (held_by agent t.lease))) [
              | inr free ↦
                  let (u, s', e, _, _, _) =
                    acquire_lease_succeeds now ttl id agent s t found keyed goes free in
                  IsAtomic-returns _ s s' u e
              | inl taken ↦ elim (Option-cases t.lease) [
                | inl none_held ↦ inr (ground arith)
                | inr (l, held) ↦ inr (ground arith)
              ]
            ]
      ]

  renew-IsAtomic : (ttl max : ℕ) (agent : String) → IsAtomic (renew_lease now ttl max id agent s) s
  unfolding renew_lease get_task write_task
  renew-IsAtomic ttl max agent = ground arith

  release-IsAtomic : (agent : String) → IsAtomic (release_lease now id agent s) s
  unfolding release_lease get_task
  release-IsAtomic agent = ground (arith, transition-IsAtomic ready no_patch)

  insert-IsAtomic : (blocker : String) → IsAtomic (insert_dependency now id blocker t s) s
  unfolding insert_dependency check_cycle write_task
  insert-IsAtomic blocker = ground arith

  depend-IsAtomic : (blocker : String) → IsAtomic (add_dependency now id blocker s) s
  unfolding add_dependency get_task insert_dependency check_cycle write_task
  depend-IsAtomic blocker = elim (Option-cases (lookup blocker s)) [
    | inl missing ↦ inr (simp (add_dependency, get_task, found, missing))
    | inr (b, there) ↦ elim (Bool-cases (is_over t.status)) [
      | inl over ↦ inr (simp (add_dependency, get_task, found, there, over))
      | inr alive ↦ elim (Bool-cases (id == blocker)) [
        | inl itself ↦ inr (simp (add_dependency, get_task, found, there, alive, itself))
        | inr other ↦ elim (Bool-cases (includes blocker t.depends_on)) [
          | inl known ↦ inr (simp (add_dependency, get_task, found, there, alive, other, known))
          | inr new ↦
              let e : add_dependency now id blocker s ≡ insert_dependency now id blocker t s =
                simp (add_dependency, get_task, found, there, alive, other, new) in
              subst (λ x. IsAtomic x s) (sym e) (insert-IsAtomic blocker)
        ]
      ]
    ]
  ]

  undepend-IsAtomic : (blocker : String) → IsAtomic (remove_dependency now id blocker s) s
  unfolding remove_dependency get_task delete_dependency write_task
  undepend-IsAtomic blocker = ground arith

  track-IsAtomic : (reason : String) → IsAtomic (track_dispatch_failure now id reason s) s
  unfolding track_dispatch_failure get_task write_task
  track-IsAtomic reason = ground arith

  deadletter-IsAtomic : (reason : String) → IsAtomic (transition_to_deadletter now id reason s) s
  unfolding transition_to_deadletter get_task
  deadletter-IsAtomic reason =
      ground (arith, transition-IsAtomic deadletter (deadletter_patch now reason t))

  reset-IsAtomic : IsAtomic (reset_dispatch_failures now id s) s
  unfolding reset_dispatch_failures get_task write_task
  reset-IsAtomic = ground arith

  update-IsAtomic :
      (hash : String → String) (p : UpdatePatch) → IsAtomic (update_task hash now id p s) s
  unfolding update_task get_task write_task
  update-IsAtomic hash p = ground arith

  perform-IsAtomic : (o : Operation) → (perform_error now id o s ≡ none) ⊎ (perform now id o s ≡ s)
  unfolding perform perform_error
  perform-IsAtomic (move to patch) = transition-IsAtomic to patch
  perform-IsAtomic (block reason) = block-IsAtomic reason
  perform-IsAtomic unblock = unblock-IsAtomic
  perform-IsAtomic (cancel reason) = cancel-IsAtomic reason
  perform-IsAtomic (acquire ttl agent) = acquire-IsAtomic ttl agent
  perform-IsAtomic (renew ttl max agent) = renew-IsAtomic ttl max agent
  perform-IsAtomic (release agent) = release-IsAtomic agent
  perform-IsAtomic (track_failure reason) = track-IsAtomic reason
  perform-IsAtomic (deadletter_task reason) = deadletter-IsAtomic reason
  perform-IsAtomic reset = reset-IsAtomic
  perform-IsAtomic (depend blocker) = depend-IsAtomic blocker
  perform-IsAtomic (undepend blocker) = undepend-IsAtomic blocker
  perform-IsAtomic (revise hash p) = update-IsAtomic hash p

-- In a well-formed store, an `Operation` that throws leaves the store as it was: those that write
-- before a transition throw before they write, or not at all.
pub perform_error_unchanged :
    (now : ℕ) (id : String) (o : Operation) (s : Store) (e : StoreError)
    → WellFormed s
    → perform_error now id o s ≡ some e
    → perform now id o s ≡ s
perform_error_unchanged now id o s e wf thrown_e = elim (Option-cases (lookup id s)) [
  | inl missing ↦ perform_missing now id s o missing
  | inr (t, found) ↦ elim (perform-IsAtomic now id s t found (wf id t found).0 o) [
    | inl fine ↦ cc
    | inr same_store ↦ same_store
  ]
]
