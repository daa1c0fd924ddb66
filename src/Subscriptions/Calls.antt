-- ===== src/Subscriptions/Calls.antt =====
-- src/store/subscription-store.ts and src/dispatch/callback-delivery.ts: the operations on the
-- subscriptions of one task as calls that run one after the other. `append` is what the chat delivery
-- records of a try; its closing `update` of a subscription is left out, as is any other bare `update`.
use aof.Prelude.{ℕ, String, Option, List, [], ◌∷◌}
use aof.Tasks.Schema.{Task}
use aof.Subscriptions.Schema.{SubscriptionGranularity, TaskSubscription, TaskSubscriptionAttempt}
use aof.Subscriptions.Store.{File, create, cancel, mark_status_notified, append_attempt}
use aof.Subscriptions.Delivery.{TransitionRecord, SessionContext, SpawnResult}
use aof.Subscriptions.Rounds.{deliver_callbacks, retry_pending_deliveries, deliver_all_granularity}

-- A round takes what the gateway answers during it, the events of the log and the task.
pub data Operation : Type 0 where
  subscribe : String → String → SubscriptionGranularity → Option String → Operation
  unsubscribe : String → Operation
  mark : String → String → Operation
  append : String → TaskSubscriptionAttempt → Operation
  deliver : (TaskSubscription → SessionContext → SpawnResult) → Option Task → Operation
  retry :
      (TaskSubscription → SessionContext → SpawnResult)
      → List TransitionRecord
      → Option Task
      → Operation
  deliver_all :
      (TaskSubscription → SessionContext → SpawnResult)
      → List TransitionRecord
      → Option Task
      → Operation

pub record Call : Type 0 where
  pub now : ℕ
  pub operation : Operation

module _ (message : ℕ → String → String) where
  -- The file that an operation leaves, whether it returns or throws.
  unfoldable pub perform : ℕ → Operation → File → File
  perform now (subscribe id agent granularity kind) subs =
      (create now id agent granularity kind subs).1
  perform now (unsubscribe id) subs = (cancel now id subs).1
  perform now (mark id st) subs = (mark_status_notified now id st subs).1
  perform now (append id a) subs = (append_attempt now id a subs).1
  perform now (deliver gateway t) subs = deliver_callbacks gateway message now t subs
  perform now (retry gateway events t) subs =
      retry_pending_deliveries gateway message now events t subs
  perform now (deliver_all gateway events t) subs =
      deliver_all_granularity gateway message now events t subs

  unfoldable pub run_calls : List Call → File → File
  unfolding perform
  run_calls [] subs = subs
  run_calls (c ∷ cs) subs = run_calls cs (perform c.now c.operation subs)
