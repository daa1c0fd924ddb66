-- ===== src/Subscriptions/Delivery.antt =====
-- src/dispatch/callback-delivery.ts. The gateway is an argument: what `spawnSession` answers to a
-- session's context. The prompt's text, the log and the traces are left out; the log's events of the
-- task's transitions are an argument.
use aof.Prelude.{
  ℕ, ◌+◌, String, Option, none, some, List, [], ◌∷◌, if◌then◌else◌, ◌==◌, keep, ltb, leb,
}
use aof.Tasks.Schema.{Task}
use aof.Subscriptions.Schema.{delivered, failed, TaskSubscription}
use aof.Subscriptions.Store.{File, SubscriptionFields, update}

abbrev pub max_delivery_attempts : ℕ
max_delivery_attempts = 3

abbrev pub min_retry_interval_ms : ℕ
min_retry_interval_ms = 30000

abbrev pub max_callback_depth : ℕ
max_callback_depth = 3

-- An event of the log: a transition, with its time.
pub record TransitionRecord : Type 0 where
  pub from_status : String
  pub to_status : String
  pub timestamp : ℕ

-- What the gateway is given; the text of the prompt is made of the task and the transitions.
pub record SessionContext : Type 0 where
  pub task_id : String
  pub agent : String
  pub callback_depth : ℕ
  pub transitions : List TransitionRecord

-- `{ success: true }`, `{ success: false, error }`, or an exception with its message.
pub data SpawnResult : Type 0 where
  spawned : SpawnResult
  refused : Option String → SpawnResult
  raised : String → SpawnResult

-- The answer to a delivery step, `none` if it threw, and the file that it leaves.
abbrev pub Step : Type 0
Step = File → Option (Unit {0}) × File

abbrev pub no_step : Step
no_step subs = (some tt, subs)

abbrev pub throw_step : Step
throw_step subs = (none, subs)

abbrev pub callback_depth_of : Task → ℕ
callback_depth_of t = elim t.callback_depth [ none ↦ 0 | some n ↦ n ]

unfoldable pub session_context : Task → TaskSubscription → List TransitionRecord → SessionContext
session_context t s transitions = record {
  task_id = t.id;
  agent = s.subscriber_id;
  callback_depth = callback_depth_of t + 1;
  transitions = transitions;
}

abbrev pub no_fields : SubscriptionFields
no_fields = record {
  status = none;
  delivered_at = none;
  failure_reason = none;
  delivery_attempts = none;
  last_attempt_at = none;
  last_delivered_at = none;
  notified_statuses = none;
}

abbrev pub sent_fields : ℕ → SubscriptionFields
sent_fields now = record no_fields { status = some delivered; delivered_at = some now }

abbrev pub cursor_fields : ℕ → SubscriptionFields
cursor_fields time = record no_fields { last_delivered_at = some time }

-- `await subscriptionStore.update(...)`: what follows does not run if it throws.
abbrev pub write_fields : ℕ → String → SubscriptionFields → Step
write_fields now id f subs =
    let (r, subs') = update now id f subs in (elim r [ none ↦ none | some _ ↦ some tt ], subs')

-- The counter is one more than it was in the listing; the third failure is final. `message` is the
-- text of the reason, made of the count and the error.
abbrev pub failure_fields : (ℕ → String → String) → ℕ → ℕ → String → SubscriptionFields
failure_fields message now n error =
    if leb max_delivery_attempts n
    then record no_fields {
      status = some failed;
      failure_reason = some (message n error);
      delivery_attempts = some n;
      last_attempt_at = some now;
    }
    else record no_fields { delivery_attempts = some n; last_attempt_at = some now }

unfoldable pub handle_delivery_failure :
    (ℕ → String → String) → ℕ → TaskSubscription → String → Step
unfolding update
handle_delivery_failure message now s error =
    write_fields now s.id (failure_fields message now (s.delivery_attempts + 1) error)

-- `result.error || "spawn failed"`
abbrev pub error_text : Option String → String
error_text none = "spawn failed"
error_text (some e) = if e == "" then "spawn failed" else e

-- `try { a } catch { b }`
abbrev pub rescue : Step → Step → Step
rescue a b subs = let (r, after) = a subs in elim r [ none ↦ b after | some u ↦ (some u, after) ]

unfoldable pub deliver_single :
    (TaskSubscription → SessionContext → SpawnResult)
    → (ℕ → String → String)
    → ℕ
    → Task
    → TaskSubscription
    → Step
unfolding update handle_delivery_failure session_context
deliver_single gateway message now t s =
    let fail : (String → Step) = handle_delivery_failure message now s in
    elim (gateway s (session_context t s [])) [
      | spawned ↦ rescue (write_fields now s.id (sent_fields now)) (fail "not found")
      | refused e ↦ rescue (fail (error_text e)) (fail "not found")
      | raised m ↦ fail m
    ]

-- The transitions after the cursor, by time; those at the same time keep their order.
unfoldable pub insert_by_time : TransitionRecord → List TransitionRecord → List TransitionRecord
insert_by_time x [] = x ∷ []
insert_by_time x (y ∷ ys) =
    if ltb y.timestamp x.timestamp then y ∷ insert_by_time x ys else x ∷ y ∷ ys

unfoldable pub sort_by_time : List TransitionRecord → List TransitionRecord
unfolding insert_by_time
sort_by_time [] = []
sort_by_time (x ∷ xs) = insert_by_time x (sort_by_time xs)

abbrev pub cursor_of : TaskSubscription → ℕ
cursor_of s = elim s.last_delivered_at [ none ↦ 0 | some n ↦ n ]

unfoldable pub new_events : List TransitionRecord → TaskSubscription → List TransitionRecord
unfolding sort_by_time
new_events events s = sort_by_time (keep (λ e. ltb (cursor_of s) e.timestamp) events)

-- `transitions[transitions.length - 1]!.timestamp`
abbrev pub last_time : TransitionRecord → List TransitionRecord → ℕ
last_time x [] = x.timestamp
last_time x (y ∷ ys) = last_time y ys

-- `deliverAllGranularityForSub`: the batch of a task that has ended.
unfoldable pub deliver_all_for_sub :
    (TaskSubscription → SessionContext → SpawnResult)
    → (ℕ → String → String)
    → ℕ
    → List TransitionRecord
    → Task
    → TaskSubscription
    → Step
unfolding update handle_delivery_failure session_context new_events
deliver_all_for_sub gateway message now events t s = elim (new_events events s) [
  | [] ↦ no_step
  | e ∷ es ↦ elim (gateway s (session_context t s (e ∷ es))) [
    | spawned ↦
        write_fields now s.id
          (record (sent_fields now) { last_delivered_at = some (last_time e es) })
    | refused error ↦ handle_delivery_failure message now s (error_text error)
    | raised m ↦ throw_step
  ]
]

-- The batch of a transition: a failure leaves the cursor, and counts for nothing.
unfoldable pub deliver_batch :
    (TaskSubscription → SessionContext → SpawnResult)
    → ℕ
    → List TransitionRecord
    → Task
    → TaskSubscription
    → Step
unfolding update session_context new_events
deliver_batch gateway now events t s = elim (new_events events s) [
  | [] ↦ no_step
  | e ∷ es ↦ elim (gateway s (session_context t s (e ∷ es))) [
    | spawned ↦ write_fields now s.id (cursor_fields (last_time e es))
    | refused error ↦ no_step
    | raised m ↦ throw_step
  ]
]
