-- ===== src/Subscriptions/Examples.antt =====
-- Examples: an agent that waits for the completion of a task, `watch`, and one whose subscription was
-- cancelled, `gone`.
use aof.Prelude.{ℕ, String, none, some, List, [], ◌∷◌, ◌≡◌, refl, false}
use aof.Tasks.Schema.{Task, done}
use aof.Subscriptions.Schema.{
  completion, active, delivered, cancelled, SubscriptionStatus, TaskSubscription,
  resolve_delivery_kind,
}
use aof.Subscriptions.Store.{File}
use aof.Subscriptions.Delivery.{SpawnResult, spawned, refused, SessionContext}
use aof.Subscriptions.Rounds.{retry_pending_deliveries, deliver_callbacks}
use aof.Subscriptions.Calls.{Call, append, deliver, retry, deliver_all, run_calls}
use aof.Subscriptions.Budget.{AllInBudget, run_calls-AllInBudget}
use aof.Subscriptions.Settled.{subs_of, run_calls_keep_settled}
use aof.Subscriptions.Retried.{retry_ignores_depth}
use aof.Tasks.Sample.{task}

abbrev message : ℕ → String → String
message n e = e

abbrev sub : String → SubscriptionStatus → TaskSubscription
sub id st = record {
  id = id;
  subscriber_id = "swe-lead";
  granularity = completion;
  delivery_kind = none;
  status = st;
  created_at = 0;
  updated_at = 0;
  delivered_at = none;
  failure_reason = none;
  delivery_attempts = 0;
  last_attempt_at = none;
  last_delivered_at = none;
  notified_statuses = [];
  attempts = [];
}

abbrev watch : TaskSubscription
watch = sub "watch" active

abbrev subscribers : File
subscribers = sub "gone" cancelled ∷ watch ∷ []

-- A task that ended at the depth given.
abbrev ended : ℕ → Task
ended depth = record (task "build" done none []) { callback_depth = some depth }

abbrev accepting : TaskSubscription → SessionContext → SpawnResult
accepting s c = spawned

abbrev refusing : TaskSubscription → SessionContext → SpawnResult
refusing s c = refused (some "gateway is down")

abbrev rounds : List Call
rounds =
    record { now = 50000; operation = deliver refusing (some (ended 0)) }
    ∷ record { now = 90000; operation = retry refusing [] (some (ended 0)) }
    ∷ record { now = 95000; operation = deliver_all accepting [] (some (ended 0)) }
    ∷ []

-- The chat delivery also tries the cancelled one.
abbrev chat_try : Call
chat_try = record {
  now = 60000;
  operation = append "gone" (record {
    attempted_at = 60000;
    success = false;
    to_status = some "done";
    error = some "no platform";
  });
}

run_calls-AllInBudget_example : AllInBudget (run_calls message (chat_try ∷ rounds) subscribers)
run_calls-AllInBudget_example =
    run_calls-AllInBudget message (chat_try ∷ rounds) subscribers ((λ e f. cc), ((λ e f. refl), tt))

run_calls_keep_settled_example :
    subs_of "gone" (run_calls message rounds subscribers) ≡ subs_of "gone" subscribers
run_calls_keep_settled_example = run_calls_keep_settled message rounds "gone" subscribers refl refl

retry_ignores_depth_example :
    (deliver_callbacks accepting message 50000 (some (ended 3)) subscribers ≡ subscribers)
    × (subs_of "watch"
          (retry_pending_deliveries accepting message 50000 [] (some (ended 3)) subscribers)
        ≡ record watch { status = delivered; delivered_at = some 50000; updated_at = 50000 } ∷ [])
unfolding resolve_delivery_kind
retry_ignores_depth_example =
    retry_ignores_depth accepting message 50000 [] (ended 3) watch subscribers refl refl refl refl
      refl refl
