-- ===== src/Subscriptions/Schema.antt =====
-- src/schemas/subscription.ts. A timestamp is its number of milliseconds; the payload of a delivery
-- belongs to plugins, and only its kind is kept.
use aof.Prelude.{ℕ, String, Bool, true, false, Option, none, some, List}

pub data SubscriptionGranularity : Type 0 where
  completion all : SubscriptionGranularity

pub data SubscriptionStatus : Type 0 where
  active delivered failed cancelled : SubscriptionStatus

abbrev pub is_active : SubscriptionStatus → Bool
is_active active = true
is_active _ = false

abbrev pub same : SubscriptionStatus → SubscriptionStatus → Bool
same active active = true
same delivered delivered = true
same failed failed = true
same cancelled cancelled = true
same _ _ = false

-- `error?.message` of an attempt is `error`.
pub record TaskSubscriptionAttempt : Type 0 where
  pub attempted_at : ℕ
  pub success : Bool
  pub to_status : Option String
  pub error : Option String

pub record TaskSubscription : Type 0 where
  pub id : String
  pub subscriber_id : String
  pub granularity : SubscriptionGranularity
  pub delivery_kind : Option String
  pub status : SubscriptionStatus
  pub created_at : ℕ
  pub updated_at : ℕ
  pub delivered_at : Option ℕ
  pub failure_reason : Option String
  pub delivery_attempts : ℕ
  pub last_attempt_at : Option ℕ
  pub last_delivered_at : Option ℕ
  pub notified_statuses : List String
  pub attempts : List TaskSubscriptionAttempt

unfoldable pub resolve_delivery_kind : TaskSubscription → String
resolve_delivery_kind s = elim s.delivery_kind [ none ↦ "agent-callback" | some k ↦ k ]
