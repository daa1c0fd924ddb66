-- ===== src/Tasks/Calls/Each.antt =====
-- Each operation replaces at most its own task, by an allowed one.
use aof.Prelude.{
  ℕ, String, true, false, not, ◌&&◌, ◌||◌, Option, some, lookup, insert, [], ◌∷◌, lookup-insert,
  lookup-insert_self, ◌≡◌, refl, sym, ◌∙◌, subst, ap, Bool-cases, Option-cases, arith, ◌==◌, inl,
  inr, eq_refl, leb, ltb, includes,
}
use aof.Tasks.Schema.{
  TaskStatus, ready, in_progress, blocked, done, cancelled, deadletter, same, one_of, Task,
  TaskLease, is_valid_transition, valid_transitions,
}
use aof.Tasks.Store.{
  Store, Answer, get_task, write_task, transitioned, transition_task, no_patch, transition_returns,
}
use aof.Tasks.Lifecycle.{
  block_task, unblock_task, cancel_task, cancelled_task, set_block_reason, clear_block,
}
use aof.Tasks.Lease.{
  acquire_lease, renew_lease, release_lease, with_lease, new_lease, renewed, start_task,
}
use aof.Tasks.Failures.{
  track_dispatch_failure, with_failure, transition_to_deadletter, deadletter_patch,
  reset_dispatch_failures, reset_failures,
}
use aof.Tasks.Update.{UpdatePatch, patched, update_task}
use aof.Tasks.Dependencies.{
  has_cycle, add_dependency, remove_dependency, depend_on, without_dependency, insert_dependency,
  delete_dependency, check_cycle,
}
use aof.Tasks.Calls.Changes.{is_over, Changed, write-Changed, Changed-trans, transition-Changed}

-- A write that keeps identifier, status and lease, and a transition after it.
write_transition-Changed :
    (now : ℕ) (id : String) (to : TaskStatus) (s : Store) (t u : Task)
    → lookup id s ≡ some t
    → t.id ≡ id
    → u.id ≡ t.id
    → u.status ≡ t.status
    → u.lease ≡ t.lease
    → Changed s id (transition_task now id to no_patch (insert u.id u s)).1
write_transition-Changed now id to s t u found keyed a b c =
    let key : u.id ≡ id = a ∙ keyed in
    Changed-trans s (insert u.id u s) _ id
      (write-Changed s id t u found keyed (ground (arith, eq_refl t.id)))
      (transition-Changed now id to no_patch (insert u.id u s) u
        (ap (λ k. lookup k (insert u.id u s)) (sym key) ∙ lookup-insert_self u.id u s) key)

module _ (now : ℕ) (id : String) (s : Store) (t : Task) (found : lookup id s ≡ some t)
    (keyed : t.id ≡ id) where
  pub block-Changed : (reason : String) → Changed s id (block_task now id reason s).1
  unfolding block_task get_task write_task
  block-Changed reason = elim (Bool-cases (same t.status blocked)) [
    | inl already ↦ inl (simp (block_task, get_task, found, already))
    | inr a ↦ elim (Bool-cases (one_of t.status (done ∷ cancelled ∷ deadletter ∷ []))) [
      | inl over ↦ inl (simp (block_task, get_task, found, a, over))
      | inr b ↦
          subst (λ x. Changed s id x) (simp (block_task, get_task, write_task, found, a, b))
            (write_transition-Changed now id blocked s t
              (record t { metadata = set_block_reason (some reason) t.metadata }) found keyed refl
              refl refl)
    ]
  ]

  pub unblock-Changed : Changed s id (unblock_task now id s).1
  unfolding unblock_task get_task write_task
  unblock-Changed = elim (Bool-cases (same t.status blocked)) [
    | inr refused ↦ inl (ground arith)
    | inl goes ↦
        subst (λ x. Changed s id x) (ground arith)
          (write_transition-Changed now id ready s t
            (record t { metadata = clear_block t.metadata }) found keyed refl refl refl)
  ]

  pub cancel-Changed : (reason : Option String) → Changed s id (cancel_task now id reason s).1
  unfolding cancel_task get_task write_task cancelled_task
  cancel-Changed reason = elim (Bool-cases (is_over t.status)) [
    | inl refused ↦ inl (ground arith)
    | inr goes ↦
        subst (λ x. Changed s id x) (ground arith)
          (write-Changed s id t (cancelled_task now reason t) found keyed
            (ground (arith, eq_refl t.id)))
  ]

  pub track-Changed : (reason : String) → Changed s id (track_dispatch_failure now id reason s).1
  unfolding track_dispatch_failure get_task write_task with_failure
  track-Changed reason =
      subst (λ x. Changed s id x) (ground arith)
        (write-Changed s id t (with_failure now reason t) found keyed
          (ground (arith, eq_refl t.id)))

  pub reset-Changed : Changed s id (reset_dispatch_failures now id s).1
  unfolding reset_dispatch_failures get_task write_task reset_failures
  reset-Changed =
      subst (λ x. Changed s id x) (ground arith)
        (write-Changed s id t (reset_failures now t) found keyed (ground (arith, eq_refl t.id)))

  pub deadletter-Changed :
      (reason : String) → Changed s id (transition_to_deadletter now id reason s).1
  unfolding transition_to_deadletter get_task
  deadletter-Changed reason =
      subst (λ x. Changed s id x) (ground arith)
        (transition-Changed now id deadletter (deadletter_patch now reason t) s t found keyed)

  pub release-Changed : (agent : String) → Changed s id (release_lease now id agent s).1
  unfolding release_lease get_task
  release-Changed agent = elim (Option-cases t.lease) [
    | inl none_held ↦ inl (ground arith)
    | inr (l, held) ↦ elim (Bool-cases (l.agent == agent)) [
      | inl mine ↦
          subst (λ x. Changed s id x) (ground arith)
            (transition-Changed now id ready no_patch s t found keyed)
      | inr other ↦ inl (ground arith)
    ]
  ]

  -- A lease that is taken on a ready task goes with the move to "in-progress".
  acquired-Changed :
      (l : TaskLease)
      → (same t.status ready || same t.status in_progress) ≡ true
      → Changed s id
          (start_task now id
            (with_lease now (some l) t)
            (insert t.id (with_lease now (some l) t) s)).1
  unfolding start_task with_lease transitioned is_valid_transition valid_transitions
  acquired-Changed l h =
      let u = with_lease now (some l) t in
      let s1 = insert t.id u s in
      let found1 : lookup id s1 ≡ some u =
        ap (λ k. lookup k s1) (sym keyed) ∙ lookup-insert_self t.id u s in
      elim (Bool-cases (same t.status ready)) [
        | inl is_ready ↦
            let v = transitioned now in_progress no_patch u in
            let status : t.status ≡ ready = ground arith in
            let moved : (transition_task now id in_progress no_patch s1).1 ≡ insert t.id v s1 =
              ap (λ (x : Answer Task × Store). x.1)
                (transition_returns now id in_progress no_patch s1 u found1 (rw status)
                  (rw status)) in
            let started : (start_task now id u s1).1
                ≡ (transition_task now id in_progress no_patch s1).1 =
              rw (start_task, is_ready) in
            inr (
              t,
              v,
              found,
              ground (arith, eq_refl t.id),
              λ j.
                  ap (lookup j) (started ∙ moved)
                  ∙ lookup-insert t.id j v s1
                  ∙ ground (arith, lookup-insert t.id j u s),
            )
        | inr busy ↦
            subst (λ x. Changed s id x) (ground arith)
              (write-Changed s id t u found keyed (ground (arith, eq_refl t.id)))
      ]

  pub acquire-Changed :
      (ttl : ℕ) (agent : String) → Changed s id (acquire_lease now ttl id agent s).1
  unfolding acquire_lease get_task write_task
  acquire-Changed ttl agent = elim (Bool-cases (same t.status ready || same t.status in_progress)) [
    | inr refused ↦ inl (
        let a : same t.status ready ≡ false = ground arith in
        let b : same t.status in_progress ≡ false = ground arith in
        simp (acquire_lease, get_task, found, a, b))
    | inl goes ↦ elim (Option-cases t.lease) [
      | inl none_held ↦
          subst (λ x. Changed s id x) (ground arith)
            (acquired-Changed (new_lease now ttl agent) goes)
      | inr (l, held) ↦ elim (Bool-cases (ltb now l.expires_at && not (l.agent == agent))) [
        | inl taken ↦ inl (ground arith)
        | inr free ↦
            subst (λ x. Changed s id x) (ground arith)
              (acquired-Changed (new_lease now ttl agent) goes)
      ]
    ]
  ]

  pub renew-Changed :
      (ttl max_renewals : ℕ) (agent : String)
      → Changed s id (renew_lease now ttl max_renewals id agent s).1
  unfolding renew_lease get_task write_task with_lease
  renew-Changed ttl max_renewals agent = elim (Option-cases t.lease) [
    | inl none_held ↦ inl (simp (renew_lease, get_task, found, none_held))
    | inr (l, held) ↦ elim (Bool-cases (l.agent == agent)) [
      | inr other ↦ inl (simp (renew_lease, get_task, found, held, other))
      | inl mine ↦ elim (Bool-cases (leb max_renewals l.renew_count)) [
        | inl spent ↦ inl (simp (renew_lease, get_task, found, held, mine, spent))
        | inr left ↦
            subst (λ x. Changed s id x)
              (simp (renew_lease, get_task, write_task, found, held, mine, left))
              (write-Changed s id t (with_lease now (some (renewed now ttl l)) t) found keyed
                (ground (arith, eq_refl t.id)))
      ]
    ]
  ]

  insert-Changed : (blocker : String) → Changed s id (insert_dependency now id blocker t s).1
  unfolding insert_dependency check_cycle write_task depend_on
  insert-Changed blocker = elim (Bool-cases (has_cycle s id blocker)) [
    | inl circular ↦ inl (simp (insert_dependency, check_cycle, circular))
    | inr free ↦
        subst (λ x. Changed s id x) (simp (insert_dependency, check_cycle, write_task, free))
          (write-Changed s id t (depend_on now blocker t) found keyed
            (ground (arith, eq_refl t.id)))
  ]

  pub depend-Changed : (blocker : String) → Changed s id (add_dependency now id blocker s).1
  unfolding add_dependency get_task insert_dependency check_cycle write_task depend_on
  depend-Changed blocker = elim (Option-cases (lookup blocker s)) [
    | inl missing ↦ inl (simp (add_dependency, get_task, found, missing))
    | inr (b, there) ↦ elim (Bool-cases (is_over t.status)) [
      | inl over ↦ inl (simp (add_dependency, get_task, found, there, over))
      | inr alive ↦ elim (Bool-cases (id == blocker)) [
        | inl itself ↦ inl (simp (add_dependency, get_task, found, there, alive, itself))
        | inr other ↦ elim (Bool-cases (includes blocker t.depends_on)) [
          | inl known ↦ inl (simp (add_dependency, get_task, found, there, alive, other, known))
          | inr new ↦
              let e : add_dependency now id blocker s ≡ insert_dependency now id blocker t s =
                simp (add_dependency, get_task, found, there, alive, other, new) in
              subst (λ x. Changed s id x.1) (sym e) (insert-Changed blocker)
        ]
      ]
    ]
  ]

  pub undepend-Changed : (blocker : String) → Changed s id (remove_dependency now id blocker s).1
  unfolding remove_dependency get_task delete_dependency write_task without_dependency
  undepend-Changed blocker = elim (Bool-cases (is_over t.status)) [
    | inl over ↦ inl (simp (remove_dependency, get_task, found, over))
    | inr b ↦ elim (Bool-cases (includes blocker t.depends_on)) [
      | inl there ↦
          subst (λ x. Changed s id x)
            (simp (remove_dependency, get_task, delete_dependency, write_task, found, b, there))
            (write-Changed s id t (without_dependency now blocker t) found keyed
              (ground (arith, eq_refl t.id)))
      | inr absent ↦ inl (simp (remove_dependency, get_task, found, b, absent))
    ]
  ]

  pub update-Changed :
      (hash : String → String) (p : UpdatePatch) → Changed s id (update_task hash now id p s).1
  unfolding update_task get_task write_task patched
  update-Changed hash p = elim (Bool-cases (one_of t.status (done ∷ []))) [
    | inl over ↦ inl (simp (update_task, get_task, found, over))
    | inr alive ↦
        subst (λ x. Changed s id x) (simp (update_task, get_task, write_task, found, alive))
          (write-Changed s id t (patched hash now p t) found keyed (ground (arith, eq_refl t.id)))
  ]
