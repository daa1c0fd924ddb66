-- ===== src/Tasks/Calls/Safe.antt =====
-- What every sequence of operations keeps.
use aof.Prelude.{
  ℕ, String, true, none, some, lookup, List, [], ◌∷◌, ◌≡◌, refl, sym, ◌∙◌, ap, some_eq,
  Option-cases, arith, inl, inr, eq_iff, text-cases,
}
use aof.Tasks.Schema.{Task}
use aof.Tasks.Store.{Store, get_task, transition_task}
use aof.Tasks.Lifecycle.{block_task, unblock_task, cancel_task}
use aof.Tasks.Lease.{acquire_lease, renew_lease, release_lease}
use aof.Tasks.Failures.{track_dispatch_failure, transition_to_deadletter, reset_dispatch_failures}
use aof.Tasks.Update.{update_task}
use aof.Tasks.Dependencies.{add_dependency, remove_dependency}
use aof.Tasks.Calls.{
  Operation, move, block, unblock, cancel, acquire, renew, release, track_failure, deadletter_task,
  reset, depend, undepend, revise, Call, perform, run_calls,
}
use aof.Tasks.Calls.Changes.{is_over, lease_fits, Changed, transition-Changed}
use aof.Tasks.Calls.Each.{
  block-Changed, unblock-Changed, cancel-Changed, track-Changed, reset-Changed, deadletter-Changed,
  release-Changed, acquire-Changed, renew-Changed, depend-Changed, undepend-Changed, update-Changed,
}

-- Every task is stored under its own identifier, and has no lease if it is done, ready or in the
-- backlog.
abbrev pub WellFormed : Store → Type 0
WellFormed s = (id : String) (t : Task) → lookup id s ≡ some t → (t.id ≡ id) × (lease_fits t ≡ true)

module _ (now : ℕ) (id : String) (s : Store) where
  pub perform_missing : (o : Operation) → lookup id s ≡ none → perform now id o s ≡ s
  unfolding perform get_task transition_task block_task unblock_task cancel_task acquire_lease
      renew_lease release_lease track_dispatch_failure transition_to_deadletter
      reset_dispatch_failures add_dependency remove_dependency update_task
  perform_missing (move to patch) h = ground arith
  perform_missing (block reason) h = simp (perform, block_task, get_task, h)
  perform_missing unblock h = simp (perform, unblock_task, get_task, h)
  perform_missing (cancel reason) h = simp (perform, cancel_task, get_task, h)
  perform_missing (acquire ttl agent) h = simp (perform, acquire_lease, get_task, h)
  perform_missing (renew ttl max agent) h = simp (perform, renew_lease, get_task, h)
  perform_missing (release agent) h = simp (perform, release_lease, get_task, h)
  perform_missing (track_failure reason) h = simp (perform, track_dispatch_failure, get_task, h)
  perform_missing (deadletter_task reason) h = simp (perform, transition_to_deadletter, get_task, h)
  perform_missing reset h = simp (perform, reset_dispatch_failures, get_task, h)
  perform_missing (depend blocker) h = simp (perform, add_dependency, get_task, h)
  perform_missing (undepend blocker) h = simp (perform, remove_dependency, get_task, h)
  perform_missing (revise hash p) h = simp (perform, update_task, get_task, h)

  perform_present :
      (o : Operation) (t : Task)
      → lookup id s ≡ some t
      → t.id ≡ id
      → Changed s id (perform now id o s)
  unfolding perform
  perform_present (move to patch) t h k = transition-Changed now id to patch s t h k
  perform_present (block reason) t h k = block-Changed now id s t h k reason
  perform_present unblock t h k = unblock-Changed now id s t h k
  perform_present (cancel reason) t h k = cancel-Changed now id s t h k reason
  perform_present (acquire ttl agent) t h k = acquire-Changed now id s t h k ttl agent
  perform_present (renew ttl max agent) t h k = renew-Changed now id s t h k ttl max agent
  perform_present (release agent) t h k = release-Changed now id s t h k agent
  perform_present (track_failure reason) t h k = track-Changed now id s t h k reason
  perform_present (deadletter_task reason) t h k = deadletter-Changed now id s t h k reason
  perform_present reset t h k = reset-Changed now id s t h k
  perform_present (depend blocker) t h k = depend-Changed now id s t h k blocker
  perform_present (undepend blocker) t h k = undepend-Changed now id s t h k blocker
  perform_present (revise hash p) t h k = update-Changed now id s t h k hash p

  pub perform-Changed : (o : Operation) → WellFormed s → Changed s id (perform now id o s)
  perform-Changed o wf = elim (Option-cases (lookup id s)) [
    | inl missing ↦ inl (perform_missing o missing)
    | inr (t, found) ↦ perform_present o t found (wf id t found).0
  ]

Changed-WellFormed : (s s' : Store) (id : String) → Changed s id s' → WellFormed s → WellFormed s'
Changed-WellFormed s s' id (inl e) wf j v at_j = wf j v (ap (lookup j) (sym e) ∙ at_j)
Changed-WellFormed s s' id (inr (t, u, found, h, r)) wf j v at_j = elim (text-cases id j) [
  | inl same_id ↦
      let here : v ≡ u = some_eq (sym at_j ∙ r j ∙ ground (arith, eq_iff id j)) in
      let (keyed, fits) = wf id t found in ground (arith, eq_iff u.id t.id)
  | inr other ↦ wf j v (ground (arith, r j))
]

Changed-over :
    (s s' : Store) (id j : String) (t : Task)
    → Changed s id s'
    → lookup j s ≡ some t
    → is_over t.status ≡ true
    → (u : Task) × (lookup j s' ≡ some u) × (u.status ≡ t.status)
Changed-over s s' id j t (inl e) found over = (t, ap (lookup j) e ∙ found, refl)
Changed-over s s' id j t (inr (t', u, found', h, r)) found over = elim (text-cases id j) [
  | inl same_id ↦ (u, r j ∙ ground (arith, eq_iff id j), ground arith)
  | inr other ↦ (t, ground (arith, r j), refl)
]

-- Any sequence of calls of an `Operation`, failing ones included, keeps every task stored under its
-- own identifier and the done, ready and backlog tasks without a lease.
pub run_calls-WellFormed : (cs : List Call) (s : Store) → WellFormed s → WellFormed (run_calls cs s)
unfolding run_calls
run_calls-WellFormed [] s wf = wf
run_calls-WellFormed (c ∷ cs) s wf =
    run_calls-WellFormed cs _
      (Changed-WellFormed s _ c.task_id (perform-Changed c.now c.task_id s c.operation wf) wf)

-- In a store whose tasks are under their own identifiers, with no lease on a done, ready or backlog
-- task, a task that is done or cancelled is so after any sequence of calls of an `Operation`, and
-- still stored.
pub run_calls_keep_over :
    (cs : List Call) (s : Store) (id : String) (t : Task)
    → WellFormed s
    → lookup id s ≡ some t
    → is_over t.status ≡ true
    → (u : Task) × (lookup id (run_calls cs s) ≡ some u) × (u.status ≡ t.status)
unfolding run_calls
run_calls_keep_over [] s id t wf found over = (t, found, refl)
run_calls_keep_over (c ∷ cs) s id t wf found over =
    let change = perform-Changed c.now c.task_id s c.operation wf in
    let (u, found', e) = Changed-over s _ c.task_id id t change found over in
    let (v, last, e') =
      run_calls_keep_over cs _ id u (Changed-WellFormed s _ c.task_id change wf) found'
        (rw e over) in
    (v, last, e' ∙ e)
