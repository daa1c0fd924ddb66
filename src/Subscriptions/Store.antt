-- ===== src/Subscriptions/Store.antt =====
-- src/store/subscription-store.ts: the subscriptions of one task, as its file lists them, none if there
-- is no file. An operation gives its result and the file that it leaves; `none` stands for an error
-- thrown by `update` and `cancel`, and for `undefined` from the others. The random identifier and
-- the clock are arguments.
use aof.Prelude.{
  ℕ, String, Option, none, some, List, [], ◌∷◌, ◌++◌, if◌then◌else◌, ◌==◌, find, keep, includes,
  length,
}
use aof.Subscriptions.Schema.{
  SubscriptionGranularity, SubscriptionStatus, active, cancelled, same, TaskSubscription,
  TaskSubscriptionAttempt,
}

abbrev pub File : Type 0
File = List TaskSubscription

unfoldable pub find_sub : String → File → Option TaskSubscription
find_sub id subs = find (λ s. s.id == id) subs

-- `data.subscriptions[index] = updated`, at the first with the identifier.
unfoldable pub replace_sub : String → TaskSubscription → File → File
replace_sub id u [] = []
replace_sub id u (s ∷ subs) = if s.id == id then u ∷ subs else s ∷ replace_sub id u subs

unfoldable pub new_subscription :
    ℕ → String → String → SubscriptionGranularity → Option String → TaskSubscription
new_subscription now id subscriber granularity kind = record {
  id = id;
  subscriber_id = subscriber;
  granularity = granularity;
  delivery_kind = kind;
  status = active;
  created_at = now;
  updated_at = now;
  delivered_at = none;
  failure_reason = none;
  delivery_attempts = 0;
  last_attempt_at = none;
  last_delivered_at = none;
  notified_statuses = [];
  attempts = [];
}

unfoldable pub create :
    ℕ → String → String → SubscriptionGranularity → Option String → File → TaskSubscription × File
unfolding new_subscription
create now id subscriber granularity kind subs =
    let s = new_subscription now id subscriber granularity kind in (s, subs ++ s ∷ [])

unfoldable pub list_subs : Option SubscriptionStatus → File → File
list_subs none subs = subs
list_subs (some st) subs = keep (λ s. same s.status st) subs

-- The fields that `update` takes, each if it is given.
pub record SubscriptionFields : Type 0 where
  pub status : Option SubscriptionStatus
  pub delivered_at : Option ℕ
  pub failure_reason : Option String
  pub delivery_attempts : Option ℕ
  pub last_attempt_at : Option ℕ
  pub last_delivered_at : Option ℕ
  pub notified_statuses : Option (List String)

abbrev pub given {ℓ} : {A : Type ℓ} → Option A → A → A
given none old = old
given (some new) old = new

abbrev pub given_option {ℓ} : {A : Type ℓ} → Option A → Option A → Option A
given_option none old = old
given_option (some new) old = some new

unfoldable pub apply_fields : ℕ → SubscriptionFields → TaskSubscription → TaskSubscription
apply_fields now f s = record s {
  status = given f.status s.status;
  delivered_at = given_option f.delivered_at s.delivered_at;
  failure_reason = given_option f.failure_reason s.failure_reason;
  delivery_attempts = given f.delivery_attempts s.delivery_attempts;
  last_attempt_at = given_option f.last_attempt_at s.last_attempt_at;
  last_delivered_at = given_option f.last_delivered_at s.last_delivered_at;
  notified_statuses = given f.notified_statuses s.notified_statuses;
  updated_at = now;
}

-- The first subscription with the identifier becomes `f` of it.
unfoldable pub revise :
    String → (TaskSubscription → TaskSubscription) → File → Option TaskSubscription × File
unfolding find_sub replace_sub
revise id f subs = elim (find_sub id subs) [
  | none ↦ (none, subs)
  | some s ↦ (some (f s), replace_sub id (f s) subs)
]

unfoldable pub update : ℕ → String → SubscriptionFields → File → Option TaskSubscription × File
unfolding revise apply_fields
update now id f subs = revise id (apply_fields now f) subs

abbrev pub cancelled_sub : ℕ → TaskSubscription → TaskSubscription
cancelled_sub now s = record s { status = cancelled; updated_at = now }

unfoldable pub cancel : ℕ → String → File → Option TaskSubscription × File
unfolding revise
cancel now id subs = revise id (cancelled_sub now) subs

-- A status that was notified before is not written again.
unfoldable pub mark_status_notified : ℕ → String → String → File → Option TaskSubscription × File
unfolding find_sub replace_sub
mark_status_notified now id st subs = elim (find_sub id subs) [
  | none ↦ (none, subs)
  | some s ↦
      if includes st s.notified_statuses
      then (some s, subs)
      else (let u : TaskSubscription = record s {
        notified_statuses = s.notified_statuses ++ st ∷ [];
        updated_at = now;
      } in
          (some u, replace_sub id u subs))
]

-- `attempt.success ? undefined : attempt.error?.message ?? "delivery failed"`
abbrev pub reason_of : TaskSubscriptionAttempt → Option String
reason_of a =
    if a.success then none else some (elim a.error [ none ↦ "delivery failed" | some m ↦ m ])

unfoldable pub with_attempt : ℕ → TaskSubscriptionAttempt → TaskSubscription → TaskSubscription
with_attempt now a s = record s {
  attempts = s.attempts ++ a ∷ [];
  delivery_attempts = length (s.attempts ++ a ∷ []);
  last_attempt_at = some a.attempted_at;
  failure_reason = reason_of a;
  updated_at = now;
}

unfoldable pub append_attempt :
    ℕ → String → TaskSubscriptionAttempt → File → Option TaskSubscription × File
unfolding revise with_attempt
append_attempt now id a subs = revise id (with_attempt now a) subs
