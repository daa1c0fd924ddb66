-- ===== src/Tasks/Failures/Budget.antt =====
-- The move of a task to the dead letters.
use aof.Prelude.{
  ℕ, String, true, false, Option, none, some, lookup, insert, lookup-insert_self, ◌≡◌, ◌≢◌, refl,
  ◌∙◌, ap, arith, ◌⊎◌, inl, inr, Option-cases, text-cases, eq_iff, some_eq,
}
use aof.Tasks.Schema.{Task, deadletter, same, is_valid_transition, valid_transitions}
use aof.Tasks.Store.{
  Store, return, get_task, write_task, transitioned, settle_transition, transition_task,
}
use aof.Tasks.Failures.{deadletter_cause, deadletter_patch, transition_to_deadletter}

-- Why a task goes to the dead letters: an error that no retry can help, or else its failures.
abbrev pub HasCause : Option String → Option String → Type 0
HasCause error_class cause =
    ((error_class ≡ some "permanent") × (cause ≡ some "permanent_error"))
    ⊎ (((error_class ≡ some "model_silent_failure") × (cause ≡ some "model_silent_failure"))
        ⊎ ((error_class ≢ some "permanent")
            × (error_class ≢ some "model_silent_failure")
            × (cause ≡ some "max_dispatch_failures")))

deadletter_cause-HasCause : (e : Option String) → HasCause e (some (deadletter_cause e))
deadletter_cause-HasCause none = inr (inr ((λ e. cc), (λ e. cc), refl))
deadletter_cause-HasCause (some c) = elim (text-cases c "permanent") [
  | inl same ↦ inl (ap some same, ground (arith, eq_iff c "permanent"))
  | inr other ↦ elim (text-cases c "model_silent_failure") [
    | inl same ↦ inr (inl (ap some same, ground (arith, eq_iff c "model_silent_failure")))
    | inr third ↦ inr (
        inr (
          (λ e. ground (arith, eq_iff c "permanent", some_eq e)),
          (λ e. ground (arith, eq_iff c "model_silent_failure", some_eq e)),
          ground arith,
        ))
  ]
]

patched :
    (now : ℕ) (last_reason : String) (t : Task)
    → deadletter_patch now last_reason t t.metadata ≡ record t.metadata {
      deadletter_reason = some (deadletter_cause t.metadata.error_class);
      deadletter_last_error = some last_reason;
      deadletter_error_class = some (elim t.metadata.error_class [ none ↦ "unknown" | some c ↦ c ]);
      deadletter_at = some now;
      deadletter_failure_count = some (elim t.metadata.dispatch_failures [ none ↦ 0 | some n ↦ n ]);
    }
unfolding deadletter_patch
patched now last_reason t = elim (Option-cases t.metadata.error_class) [
  | inl no_class ↦ elim (Option-cases t.metadata.dispatch_failures) [
    | inl no_count ↦ rw (no_class, no_count) refl
    | inr (n, count) ↦ rw (no_class, count) refl
  ]
  | inr (c, class) ↦ elim (Option-cases t.metadata.dispatch_failures) [
    | inl no_count ↦ rw (class, no_count) refl
    | inr (n, count) ↦ rw (class, count) refl
  ]
]

-- A task stored under its own identifier whose status allows it goes to the dead letters, and keeps its lease. Its metadata then
-- holds the cause that its error class calls for, the last error, the error class or "unknown", the time, and the number of its
-- failed dispatches, 0 if none was counted; the rest of the metadata is as it was.
pub transition_to_deadletter_stamps :
    (now : ℕ) (id last_reason : String) (s : Store) (t : Task)
    → lookup id s ≡ some t
    → t.id ≡ id
    → is_valid_transition t.status deadletter ≡ true
    → (u : Task) × (s' : Store) × (cause : Option String) × (transition_to_deadletter now id
          last_reason s
        ≡ (return u, s'))
      × (lookup id s' ≡ some u)
      × (u.status ≡ deadletter)
      × (u.lease ≡ t.lease)
      × HasCause t.metadata.error_class cause
      × (u.metadata ≡ record t.metadata {
        deadletter_reason = cause;
        deadletter_last_error = some last_reason;
        deadletter_error_class =
            some (elim t.metadata.error_class [ none ↦ "unknown" | some c ↦ c ]);
        deadletter_at = some now;
        deadletter_failure_count =
            some (elim t.metadata.dispatch_failures [ none ↦ 0 | some n ↦ n ]);
      })
unfolding transition_to_deadletter get_task transition_task settle_transition write_task
    transitioned is_valid_transition valid_transitions
transition_to_deadletter_stamps now id last_reason s t found keyed valid =
    let u = transitioned now deadletter (deadletter_patch now last_reason t) t in
    let moves : same t.status deadletter ≡ false = ground arith in
    (
      u,
      insert t.id u s,
      some (deadletter_cause t.metadata.error_class),
      ground arith,
      ap (λ k. lookup id (insert k u s)) keyed ∙ lookup-insert_self id u s,
      refl,
      refl,
      deadletter_cause-HasCause t.metadata.error_class,
      patched now last_reason t,
    )
