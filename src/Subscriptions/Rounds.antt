-- ===== src/Subscriptions/Rounds.antt =====
-- src/dispatch/callback-delivery.ts: the rounds over the subscriptions of a task. An error within one
-- delivery ends that delivery only. `t` is what `store.get` answers.
use aof.Prelude.{
  ℕ, ◌+◌, String, Bool, true, false, not, ◌&&◌, Option, none, some, List, [], ◌∷◌, if◌then◌else◌,
  ◌==◌, keep, ltb, leb,
}
use aof.Tasks.Schema.{done, cancelled, deadletter, one_of, Task}
use aof.Subscriptions.Schema.{
  SubscriptionGranularity, completion, all, active, TaskSubscription, resolve_delivery_kind,
}
use aof.Subscriptions.Store.{File, list_subs}
use aof.Subscriptions.Delivery.{
  max_delivery_attempts, min_retry_interval_ms, max_callback_depth, TransitionRecord,
  SessionContext, SpawnResult, Step, no_step, callback_depth_of, deliver_single,
  deliver_all_for_sub, deliver_batch,
}

abbrev pub is_terminal : Task → Bool
is_terminal t = one_of t.status (done ∷ cancelled ∷ deadletter ∷ [])

abbrev pub too_deep : Task → Bool
too_deep t = leb max_callback_depth (callback_depth_of t)

abbrev pub is_completion : SubscriptionGranularity → Bool
is_completion completion = true
is_completion all = false

abbrev pub to_agent : TaskSubscription → Bool
to_agent s = resolve_delivery_kind s == "agent-callback"

-- A loop whose rounds each stand in `try { } catch { }`.
unfoldable pub each : (TaskSubscription → Step) → List TaskSubscription → File → File
each step [] subs = subs
each step (s ∷ ss) subs = each step ss (step s subs).1

-- An attempt less than the interval ago. The clock may have gone back.
abbrev pub tried_recently : ℕ → Option ℕ → Bool
tried_recently now none = false
tried_recently now (some last) = ltb now (last + min_retry_interval_ms)

module _ (gateway : TaskSubscription → SessionContext → SpawnResult) (message : ℕ → String → String)
    (now : ℕ) where
  unfoldable pub deliver_callbacks : Option Task → File → File
  unfolding each list_subs deliver_single
  deliver_callbacks none subs = subs
  deliver_callbacks (some t) subs =
      if not (is_terminal t)
      then subs
      else if too_deep t
      then subs
      else each (deliver_single gateway message now t)
          (keep (λ s. is_completion s.granularity && to_agent s) (list_subs (some active) subs))
          subs

  unfoldable pub retry_one : List TransitionRecord → Task → TaskSubscription → Step
  unfolding deliver_single deliver_all_for_sub
  retry_one events t s =
      if tried_recently now s.last_attempt_at
      then no_step
      else if is_completion s.granularity
      then deliver_single gateway message now t s
      else deliver_all_for_sub gateway message now events t s

  unfoldable pub retry_pending_deliveries : List TransitionRecord → Option Task → File → File
  unfolding each list_subs retry_one
  retry_pending_deliveries events none subs = subs
  retry_pending_deliveries events (some t) subs =
      if not (is_terminal t)
      then subs
      else each (retry_one events t)
          (keep (λ s. ltb s.delivery_attempts max_delivery_attempts && to_agent s)
            (list_subs (some active) subs))
          subs

  unfoldable pub deliver_all_granularity : List TransitionRecord → Option Task → File → File
  unfolding each list_subs deliver_batch
  deliver_all_granularity events none subs = subs
  deliver_all_granularity events (some t) subs =
      if too_deep t
      then subs
      else each (deliver_batch gateway now events t)
          (keep (λ s. not (is_completion s.granularity) && to_agent s)
            (list_subs (some active) subs))
          subs
