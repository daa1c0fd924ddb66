-- ===== src/Subscriptions/Budget.antt =====
-- src/store/subscription-store.ts and src/dispatch/callback-delivery.ts: the attempts of an active
-- subscription that the chat delivery has not tried.
use aof.Prelude.{
  ℕ, String, true, ◌==◌, some, List, [], ◌∷◌, ◌++◌, ◌≡◌, ◌≢◌, refl, arith, Bool-cases, Option-cases,
  inl, inr, ltb, includes, All, All-append, All-of_mem, All-get, find-passes,
}
use aof.Subscriptions.Schema.{is_active, TaskSubscription, TaskSubscriptionAttempt}
use aof.Subscriptions.Store.{
  File, SubscriptionFields, find_sub, replace_sub, revise, apply_fields, update, create,
  new_subscription, cancel, cancelled_sub, mark_status_notified, with_attempt, append_attempt,
}
use aof.Subscriptions.Delivery.{max_delivery_attempts}
use aof.Subscriptions.Calls.{
  Operation, subscribe, unsubscribe, mark, append, deliver, retry, deliver_all, Call, perform,
  run_calls,
}
use aof.Subscriptions.Steps.{Keeps, fits, deliver_callbacks-keeps, retry-keeps, deliver_all-keeps}

abbrev pub InBudget : TaskSubscription → Type 0
InBudget s =
    is_active s.status ≡ true
    → s.attempts ≡ []
    → ltb s.delivery_attempts max_delivery_attempts ≡ true

abbrev pub AllInBudget : File → Type 0
AllInBudget subs = All InBudget subs

found-InBudget :
    (id : String) (subs : File) (s : TaskSubscription)
    → AllInBudget subs
    → find_sub id subs ≡ some s
    → InBudget s
unfolding find_sub
found-InBudget id subs s h found = All-get InBudget (find-passes (λ x. x.id == id) subs found).1 h

replace-InBudget :
    (id : String) (u : TaskSubscription) (subs : File)
    → InBudget u
    → AllInBudget subs
    → AllInBudget (replace_sub id u subs)
unfolding replace_sub
replace-InBudget id u [] k h = tt
replace-InBudget id u (s ∷ subs) k (h, hs) = elim (Bool-cases (s.id == id)) [
  | inl e ↦ rw e (k, hs)
  | inr e ↦ rw e (h, replace-InBudget id u subs k hs)
]

revise-InBudget :
    (id : String) (f : TaskSubscription → TaskSubscription)
    → ((s : TaskSubscription) → InBudget s → InBudget (f s))
    → (subs : File) → AllInBudget subs
    → AllInBudget (revise id f subs).1
unfolding revise
revise-InBudget id f k subs h = elim (Option-cases (find_sub id subs)) [
  | inl none_found ↦ rw (none_found, revise) h
  | inr (s, found) ↦
      rw (found, revise) (replace-InBudget id (f s) subs (k s (found-InBudget id subs s h found)) h)
]

update-InBudget :
    (now : ℕ) (id : String) (f : SubscriptionFields)
    → fits f ≡ true
    → Keeps AllInBudget (update now id f)
unfolding update apply_fields
update-InBudget now id f fit = revise-InBudget id (apply_fields now f) applied
  where
    applied : (s : TaskSubscription) → InBudget s → InBudget (apply_fields now f s)
    applied s h is untried = elim (Option-cases f.status) [
      | inr (st, e) ↦ ground arith
      | inl e ↦ elim (Option-cases f.delivery_attempts) [
        | inl d ↦ ground (arith, h (ground arith) untried)
        | inr (n, d) ↦ ground arith
      ]
    ]

mark-InBudget :
    (now : ℕ) (id st : String) (subs : File)
    → AllInBudget subs
    → AllInBudget (mark_status_notified now id st subs).1
unfolding mark_status_notified
mark-InBudget now id st subs h = elim (Option-cases (find_sub id subs)) [
  | inl none_found ↦ rw (none_found, mark_status_notified) h
  | inr (s, found) ↦ elim (Bool-cases (includes st s.notified_statuses)) [
    | inl known ↦ rw (found, mark_status_notified) (rw known h)
    | inr new ↦
        rw (found, mark_status_notified)
          (rw new (replace-InBudget id _ subs (found-InBudget id subs s h found) h))
  ]
]

tried_by_chat :
    (now : ℕ) (a : TaskSubscriptionAttempt) (s : TaskSubscription) → InBudget (with_attempt now a s)
unfolding with_attempt
tried_by_chat now a s is untried = absurd (snoc_ne s.attempts untried)
  where
    snoc_ne : (xs : List TaskSubscriptionAttempt) → (xs ++ a ∷ []) ≢ []
    snoc_ne [] e = cc
    snoc_ne (x ∷ xs) e = cc

perform-InBudget :
    (message : ℕ → String → String) (now : ℕ) (o : Operation) (subs : File)
    → AllInBudget subs
    → AllInBudget (perform message now o subs)
unfolding perform create cancel append_attempt
perform-InBudget message now (subscribe id agent g kind) subs h =
    All-append InBudget subs (new_subscription now id agent g kind ∷ []) h ((λ e f. refl), tt)
perform-InBudget message now (unsubscribe id) subs h =
    revise-InBudget id (cancelled_sub now) (λ s k is f. cc) subs h
perform-InBudget message now (mark id st) subs h = mark-InBudget now id st subs h
perform-InBudget message now (append id a) subs h =
    revise-InBudget id (with_attempt now a) (λ s k. tried_by_chat now a s) subs h
perform-InBudget message now (deliver gateway t) subs h =
    deliver_callbacks-keeps AllInBudget gateway message now subs
      (All-of_mem subs (λ s m is. update-InBudget now s.id)) h t
perform-InBudget message now (retry gateway events t) subs h =
    retry-keeps AllInBudget gateway message now subs
      (All-of_mem subs (λ s m is. update-InBudget now s.id)) h events t
perform-InBudget message now (deliver_all gateway events t) subs h =
    deliver_all-keeps AllInBudget gateway message now subs
      (All-of_mem subs (λ s m is. update-InBudget now s.id)) h events t

-- If every active subscription of the file whose list of attempts is empty counts fewer than three attempts, each such
-- one does after any sequence of calls of an `Operation`, the chat delivery's appended attempts
-- included, whatever the gateway answers and whether they throw.
pub run_calls-AllInBudget :
    (message : ℕ → String → String) (cs : List Call) (subs : File)
    → AllInBudget subs
    → AllInBudget (run_calls message cs subs)
unfolding run_calls
run_calls-AllInBudget message [] subs h = h
run_calls-AllInBudget message (c ∷ cs) subs h =
    run_calls-AllInBudget message cs _ (perform-InBudget message c.now c.operation subs h)
