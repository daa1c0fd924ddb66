-- ===== src/Subscriptions/Retried.antt =====
-- src/dispatch/callback-delivery.ts: what becomes of a subscription in the rounds after its task ended.
use aof.Prelude.{
  ℕ, String, Bool, true, false, ◌&&◌, none, some, List, [], ◌∷◌, ◌≡◌, ◌≢◌, refl, ap, ◌∙◌, arith,
  keep, ltb,
}
use aof.Tasks.Schema.{Task}
use aof.Subscriptions.Schema.{is_active, active, delivered, same, TaskSubscription}
use aof.Subscriptions.Store.{File, list_subs}
use aof.Subscriptions.Delivery.{
  TransitionRecord, SessionContext, SpawnResult, spawned, session_context, max_delivery_attempts,
}
use aof.Subscriptions.Rounds.{
  is_terminal, is_completion, to_agent, too_deep, tried_recently, retry_one,
  retry_pending_deliveries, deliver_callbacks,
}
use aof.Subscriptions.Steps.{retry-Keeps}
use aof.Subscriptions.Settled.{subs_of, Same, Updates-others}
use aof.Subscriptions.Tried.{outcome, keep_one, retry_one_tries, each_one}

-- A subscription to the completion that the rounds may try, and that an agent is told of.
abbrev pub is_open : TaskSubscription → Bool
is_open s =
    is_active s.status
    && ltb s.delivery_attempts max_delivery_attempts
    && to_agent s
    && is_completion s.granularity

-- After a task ended, a retry round at least 30 seconds after the last failure tries an open
-- subscription to its completion, if its identifier is its own: it is delivered if the gateway accepts
-- the session, and else it counts one failure more, and from the third on it has failed.
pub retry_round_tries :
    (gateway : TaskSubscription → SessionContext → SpawnResult) (message : ℕ → String → String)
    (now : ℕ) (events : List TransitionRecord) (t : Task) (s : TaskSubscription) (subs : File)
    → is_terminal t ≡ true
    → subs_of s.id subs ≡ s ∷ []
    → is_open s ≡ true
    → tried_recently now s.last_attempt_at ≡ false
    → subs_of s.id (retry_pending_deliveries gateway message now events (some t) subs)
      ≡ outcome message now (gateway s (session_context t s [])) s ∷ []
unfolding retry_pending_deliveries list_subs
retry_round_tries gateway message now events t s subs over one is_open_s due = rw over (
    each_one (retry_one gateway message now events t) s.id
      (λ x subs' other.
        retry-Keeps (Same s.id subs') now x (Updates-others now s.id subs' x other) gateway message
          events t subs' refl)
      s (outcome message now (gateway s (session_context t s [])) s) _ subs listed
      (λ subs' one'. retry_one_tries gateway message now events t s subs' one' due (ground arith))
      one)
  where
    listed :
        subs_of s.id (
          keep
            (λ x. ltb x.delivery_attempts max_delivery_attempts && to_agent x)
            (list_subs (some active) subs))
        ≡ s ∷ []
    listed =
        keep_one s.id (λ x. ltb x.delivery_attempts max_delivery_attempts && to_agent x) s
          (list_subs (some active) subs)
          (keep_one s.id (λ x. same x.status active) s subs one (ground arith)) (ground arith)

module _ (message : ℕ → String → String)
    (gateway : ℕ → TaskSubscription → SessionContext → SpawnResult)
    (events : ℕ → List TransitionRecord) (t : Task) (over : is_terminal t ≡ true)
    (refuses : (now : ℕ) (s : TaskSubscription) (c : SessionContext)
      → gateway now s c ≢ spawned) where
  -- The retry round at a time.
  abbrev round : ℕ → File → File
  round now subs = retry_pending_deliveries (gateway now) message now (events now) (some t) subs

-- For a task that has ended, at a callback depth of 3 or more, the delivery round does nothing, and the
-- retry round delivers nonetheless: an open subscription never tried before, if its identifier is its
-- own, is delivered in it if the gateway accepts the session.
pub retry_ignores_depth :
    (gateway : TaskSubscription → SessionContext → SpawnResult) (message : ℕ → String → String)
    (now : ℕ) (events : List TransitionRecord) (t : Task) (s : TaskSubscription) (subs : File)
    → is_terminal t ≡ true
    → too_deep t ≡ true
    → subs_of s.id subs ≡ s ∷ []
    → is_open s ≡ true
    → s.last_attempt_at ≡ none
    → gateway s (session_context t s []) ≡ spawned
    → (deliver_callbacks gateway message now (some t) subs ≡ subs)
      × (subs_of s.id (retry_pending_deliveries gateway message now events (some t) subs)
          ≡ record s { status = delivered; delivered_at = some now; updated_at = now } ∷ [])
unfolding deliver_callbacks
retry_ignores_depth gateway message now events t s subs over deep one is_open_s never accepts = (
  rw over (rw deep refl),
  retry_round_tries gateway message now events t s subs over one is_open_s
        (ap (tried_recently now) never)
      ∙ ap (λ r. outcome message now r s ∷ []) accepts,
)
