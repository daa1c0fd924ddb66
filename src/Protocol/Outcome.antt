-- ===== src/Protocol/Outcome.antt =====
-- What a completion report makes of the status of its task.
use aof.Prelude.{
  ℕ, String, Bool, true, false, not, ◌||◌, some, List, [], ◌∷◌, lookup, insert, lookup-insert,
  lookup-insert_self, if◌then◌else◌, ◌==◌, ◌≡◌, refl, ap, ◌∙◌, arith, Bool-cases, inl, inr,
}
use aof.Tasks.Schema.{TaskStatus, same, is_valid_transition, valid_transitions, Task}
use aof.Tasks.Store.{Store, return, transitioned, no_patch, transition_returns}
use aof.Handler.Completion.{CompletionOutcome}
use aof.Protocol.{
  requires_review, review_then_done, resolve_completion_transitions, transition_if_valid,
  apply_each, apply_completion_outcome,
}

-- The status after a completion, by the status before, whether a review is required, and the outcome.
abbrev pub completion_target : TaskStatus → Bool → CompletionOutcome → TaskStatus
completion_target TaskStatus.in_progress true CompletionOutcome.done = TaskStatus.review
completion_target TaskStatus.in_progress false CompletionOutcome.done = TaskStatus.done
completion_target TaskStatus.in_progress rr CompletionOutcome.blocked = TaskStatus.blocked
completion_target TaskStatus.in_progress rr CompletionOutcome.needs_review = TaskStatus.review
completion_target TaskStatus.in_progress rr CompletionOutcome.partial = TaskStatus.review
completion_target TaskStatus.review false CompletionOutcome.done = TaskStatus.done
completion_target TaskStatus.review rr CompletionOutcome.blocked = TaskStatus.blocked
completion_target TaskStatus.ready rr CompletionOutcome.blocked = TaskStatus.blocked
completion_target TaskStatus.backlog rr CompletionOutcome.blocked = TaskStatus.blocked
completion_target st rr outcome = st

abbrev pub stays : TaskStatus → TaskStatus → Bool
stays from to = same from to || not (is_valid_transition from to)

abbrev pub moved : TaskStatus → TaskStatus → TaskStatus
moved from to = if stays from to then from else to

abbrev moved_along : List TaskStatus → TaskStatus → TaskStatus
moved_along [] st = st
moved_along (to ∷ rest) st = moved_along rest (moved st to)

-- An action's effect on one task: it returns, leaves the task with a status, and the others alone.
pub record Moves (id j : String) (s s' : Store) (u : Task) (st : TaskStatus) : Type 0 where
  pub stored : lookup id s' ≡ some u
  pub keyed : u.id ≡ id
  pub status : u.status ≡ st
  pub others : lookup j s' ≡ lookup j s

module _ (now : ℕ) (id j : String) (other : (id == j) ≡ false) where
  pub transition_if_valid_lem :
      (t : Task) (to : TaskStatus) (s : Store)
      → lookup id s ≡ some t
      → t.id ≡ id
      → (u : Task) × (s' : Store) × (transition_if_valid now t to s ≡ (return u, s'))
        × Moves id j s s' u (moved t.status to)
  unfolding transition_if_valid transitioned
  transition_if_valid_lem t to s found keyed = elim (Bool-cases (stays t.status to)) [
    | inl b ↦ (
      t,
      s,
      rw b refl,
      record { stored = found; keyed = keyed; status = rw b refl; others = refl },
    )
    | inr b ↦
        let u = transitioned now to no_patch t in
        let at : lookup t.id s ≡ some t = ap (λ k. lookup k s) keyed ∙ found in
        (
          u,
          insert t.id u s,
          rw b (transition_returns now t.id to no_patch s t at (ground arith) (ground arith)),
          record {
            stored = ap (λ k. lookup id (insert k u s)) keyed ∙ lookup-insert_self id u s;
            keyed = keyed;
            status = rw b refl;
            others =
                ap (λ k. lookup j (insert k u s)) keyed ∙ (lookup-insert id j u s ∙ rw other refl);
          },
        )
  ]

  apply_each_lem :
      (tos : List TaskStatus) (t : Task) (s : Store)
      → lookup id s ≡ some t
      → t.id ≡ id
      → (u : Task) × (s' : Store) × (apply_each now tos t s ≡ (return tt, s'))
        × Moves id j s s' u (moved_along tos t.status)
  unfolding apply_each
  apply_each_lem [] t s found keyed =
      (t, s, refl, record { stored = found; keyed = keyed; status = refl; others = refl })
  apply_each_lem (to ∷ rest) t s found keyed =
      let (u, s1, first, m) = transition_if_valid_lem t to s found keyed in
      let (v, s2, second, n) = apply_each_lem rest u s1 m.stored m.keyed in
      (
        v,
        s2,
        rw (apply_each, first) second,
        record {
          stored = n.stored;
          keyed = n.keyed;
          status = n.status ∙ ap (moved_along rest) m.status;
          others = n.others ∙ m.others;
        },
      )

done_lem :
    (st : TaskStatus) (rr : Bool)
    → moved_along (if same st TaskStatus.done then [] else review_then_done rr) st
      ≡ completion_target st rr CompletionOutcome.done
unfolding is_valid_transition valid_transitions
done_lem st rr = ground arith

one_step_lem :
    (st : TaskStatus) (rr : Bool)
    → (moved st TaskStatus.blocked ≡ completion_target st rr CompletionOutcome.blocked)
      × (moved st TaskStatus.review ≡ completion_target st rr CompletionOutcome.needs_review)
      × (moved st TaskStatus.review ≡ completion_target st rr CompletionOutcome.partial)
unfolding is_valid_transition valid_transitions
one_step_lem st rr = ground arith

target_lem :
    (t : Task) (outcome : CompletionOutcome)
    → moved_along (resolve_completion_transitions t outcome) t.status
      ≡ completion_target t.status (requires_review t.metadata.review_required) outcome
unfolding resolve_completion_transitions
target_lem t CompletionOutcome.done = done_lem t.status (requires_review t.metadata.review_required)
target_lem t CompletionOutcome.blocked =
    (one_step_lem t.status (requires_review t.metadata.review_required)).0
target_lem t CompletionOutcome.needs_review =
    (one_step_lem t.status (requires_review t.metadata.review_required)).1
target_lem t CompletionOutcome.partial =
    (one_step_lem t.status (requires_review t.metadata.review_required)).2

-- A completion of a stored task, under its own identifier, is applied without an error. The task then has the
-- status that the table gives, its transitions that are not valid passed over, and any other task is as it was.
pub apply_completion_outcome_lem :
    (now : ℕ) (id j : String) (t : Task) (outcome : CompletionOutcome) (s : Store)
    → lookup id s ≡ some t
    → t.id ≡ id
    → (id == j) ≡ false
    → (u : Task) × (s' : Store) × (apply_completion_outcome now t outcome s ≡ (return tt, s'))
      × (lookup id s' ≡ some u)
      × (u.status ≡ completion_target t.status (requires_review t.metadata.review_required) outcome)
      × (lookup j s' ≡ lookup j s)
unfolding apply_completion_outcome
apply_completion_outcome_lem now id j t outcome s found keyed other =
    let (u, s', e, m) =
      apply_each_lem now id j other (resolve_completion_transitions t outcome) t s found keyed in
    (u, s', e, m.stored, m.status ∙ target_lem t outcome, m.others)
