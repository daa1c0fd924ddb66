-- ===== src/Subscriptions/Steps.antt =====
-- src/dispatch/callback-delivery.ts: what the delivery steps and the rounds of them keep of a file,
-- whatever the gateway answers.
use aof.Prelude.{
  ℕ, ◌+◌, String, Bool, true, not, Option, Option-cases, ◌⊎◌, none, some, List, [], ◌∷◌, ◌≡◌, refl,
  arith, Bool-cases, inl, inr, ltb, keep, All, All-map,
}
use aof.Tasks.Schema.{Task}
use aof.Subscriptions.Schema.{is_active, TaskSubscription, active, same}
use aof.Subscriptions.Store.{File, SubscriptionFields, update, list_subs}
use aof.Subscriptions.Delivery.{
  max_delivery_attempts, TransitionRecord, SessionContext, SpawnResult, spawned, refused, raised,
  Step, failure_fields, handle_delivery_failure, deliver_single, deliver_all_for_sub, deliver_batch,
  session_context, new_events, error_text, rescue, write_fields, sent_fields, cursor_fields,
  last_time,
}
use aof.Subscriptions.Rounds.{
  each, is_terminal, too_deep, deliver_callbacks, retry_pending_deliveries, deliver_all_granularity,
  retry_one, is_completion, tried_recently,
}

-- `Q` holds of the file after the step if it does before.
abbrev pub Keeps : {A : Type 0} → (File → Type 0) → (File → A × File) → Type 0
Keeps Q step = (subs : File) → Q subs → Q (step subs).1

-- Fields that leave a subscription no active one, or do not spend its attempts.
abbrev pub fits : SubscriptionFields → Bool
fits f = elim f.status [
  | some st ↦ not (is_active st)
  | none ↦ elim f.delivery_attempts [ none ↦ true | some n ↦ ltb n max_delivery_attempts ]
]

pub each-Keeps :
    (Q : File → Type 0) (step : TaskSubscription → Step) (ss : List TaskSubscription)
    → All (λ s. Keeps Q (step s)) ss
    → (subs : File) → Q subs
    → Q (each step ss subs)
unfolding each
each-Keeps Q step [] h subs q = q
each-Keeps Q step (s ∷ ss) (h, hs) subs q = each-Keeps Q step ss hs _ (h subs q)

pub failure_fields-fits :
    (message : ℕ → String → String) (now n : ℕ) (e : String)
    → fits (failure_fields message now n e) ≡ true
failure_fields-fits message now n e = ground arith

pub SpawnResult-cases :
    (r : SpawnResult)
    → (r ≡ spawned) ⊎ ((m : Option String) × (r ≡ refused m)) ⊎ ((m : String) × (r ≡ raised m))
SpawnResult-cases spawned = inl refl
SpawnResult-cases (refused m) = inr (inl (m, refl))
SpawnResult-cases (raised m) = inr (inr (m, refl))

List-cases {ℓ} : {A : Type ℓ} (xs : List A) → (xs ≡ []) ⊎ ((y : A) × (ys : List A) × (xs ≡ y ∷ ys))
List-cases [] = inl refl
List-cases (y ∷ ys) = inr (y, ys, refl)

module _ (Q : File → Type 0) (now : ℕ) (s : TaskSubscription)
    (kept : (f : SubscriptionFields) → fits f ≡ true → Keeps Q (update now s.id f)) where
  module _ (gateway : TaskSubscription → SessionContext → SpawnResult)
      (message : ℕ → String → String) where
    failure-Keeps : (e : String) → Keeps Q (handle_delivery_failure message now s e)
    unfolding handle_delivery_failure
    failure-Keeps e subs q =
        kept (failure_fields message now (s.delivery_attempts + 1) e)
          (failure_fields-fits message now (s.delivery_attempts + 1) e) subs q

    rescue-Keeps : (a b : Step) → Keeps Q a → Keeps Q b → Keeps Q (rescue a b)
    rescue-Keeps a b ka kb subs q = elim (Option-cases (a subs).0) [
      | inl threw ↦ rw (threw, rescue) (kb (a subs).1 (ka subs q))
      | inr (u, e) ↦ rw (e, rescue) (ka subs q)
    ]

    pub single-Keeps : (t : Task) → Keeps Q (deliver_single gateway message now t s)
    unfolding deliver_single
    single-Keeps t subs q = elim (SpawnResult-cases (gateway s (session_context t s []))) [
      | inl e ↦
          rw (e, deliver_single)
            (rescue-Keeps (write_fields now s.id (sent_fields now))
              (handle_delivery_failure message now s "not found") (kept (sent_fields now) refl)
              (failure-Keeps "not found") subs q)
      | inr (inl (m, e)) ↦
          rw (e, deliver_single)
            (rescue-Keeps (handle_delivery_failure message now s (error_text m))
              (handle_delivery_failure message now s "not found") (failure-Keeps (error_text m))
              (failure-Keeps "not found") subs q)
      | inr (inr (m, e)) ↦ rw (e, deliver_single) (failure-Keeps m subs q)
    ]

    pub all-Keeps :
        (events : List TransitionRecord) (t : Task)
        → Keeps Q (deliver_all_for_sub gateway message now events t s)
    unfolding deliver_all_for_sub
    all-Keeps events t subs q = elim (List-cases (new_events events s)) [
      | inl e ↦ rw (e, deliver_all_for_sub) q
      | inr (x, xs, e) ↦ elim (SpawnResult-cases (gateway s (session_context t s (x ∷ xs)))) [
        | inl g ↦
            rw (e, g, deliver_all_for_sub)
              (kept (record (sent_fields now) { last_delivered_at = some (last_time x xs) }) refl
                subs q)
        | inr (inl (m, g)) ↦ rw (e, g, deliver_all_for_sub) (failure-Keeps (error_text m) subs q)
        | inr (inr (m, g)) ↦ rw (e, g, deliver_all_for_sub) q
      ]
    ]

    pub batch-Keeps :
        (events : List TransitionRecord) (t : Task) → Keeps Q (deliver_batch gateway now events t s)
    unfolding deliver_batch
    batch-Keeps events t subs q = elim (List-cases (new_events events s)) [
      | inl e ↦ rw (e, deliver_batch) q
      | inr (x, xs, e) ↦ elim (SpawnResult-cases (gateway s (session_context t s (x ∷ xs)))) [
        | inl g ↦ rw (e, g, deliver_batch) (kept (cursor_fields (last_time x xs)) refl subs q)
        | inr (inl (m, g)) ↦ rw (e, g, deliver_batch) q
        | inr (inr (m, g)) ↦ rw (e, g, deliver_batch) q
      ]
    ]

    pub retry-Keeps :
        (events : List TransitionRecord) (t : Task)
        → Keeps Q (retry_one gateway message now events t s)
    unfolding retry_one
    retry-Keeps events t subs q = elim (Bool-cases (tried_recently now s.last_attempt_at)) [
      | inl recent ↦ rw recent q
      | inr due ↦ elim (Bool-cases (is_completion s.granularity)) [
        | inl c ↦ rw (due, c) (single-Keeps t subs q)
        | inr a ↦ rw (due, a) (all-Keeps events t subs q)
      ]
    ]

-- The file's writes for a subscription keep `Q`.
abbrev pub Updates : (File → Type 0) → ℕ → TaskSubscription → Type 0
Updates Q now s = (f : SubscriptionFields) → fits f ≡ true → Keeps Q (update now s.id f)

All-keep {ℓ κ} :
    {A : Type ℓ} (P : A → Type κ) (p : A → Bool) (xs : List A) → All P xs → All P (keep p xs)
All-keep P p [] h = tt
All-keep P p (x ∷ xs) (h, hs) = elim (Bool-cases (p x)) [
  | inl e ↦ rw e (h, All-keep P p xs hs)
  | inr e ↦ rw e (All-keep P p xs hs)
]

active_listed :
    (P : TaskSubscription → Type 0) (subs : File)
    → All (λ s. is_active s.status ≡ true → P s) subs
    → All P (list_subs (some active) subs)
unfolding list_subs
active_listed P [] h = tt
active_listed P (s ∷ subs) (h, hs) = elim (Bool-cases (same s.status active)) [
  | inl e ↦ rw e (h (ground arith), active_listed P subs hs)
  | inr e ↦ rw e (active_listed P subs hs)
]

module _ (Q : File → Type 0) (gateway : TaskSubscription → SessionContext → SpawnResult)
    (message : ℕ → String → String) (now : ℕ) (subs : File)
    (h : All (λ s. is_active s.status ≡ true → Updates Q now s) subs) (q : Q subs) where
  round-Keeps :
      (step : TaskSubscription → Step) (p : TaskSubscription → Bool)
      → ((s : TaskSubscription) → Updates Q now s → Keeps Q (step s))
      → Q (each step (keep p (list_subs (some active) subs)) subs)
  round-Keeps step p k =
      each-Keeps Q step (keep p (list_subs (some active) subs))
        (All-keep (λ s. Keeps Q (step s)) p (list_subs (some active) subs)
          (All-map k (list_subs (some active) subs) (active_listed (Updates Q now) subs h)))
        subs q

  pub deliver_callbacks-keeps : (t : Option Task) → Q (deliver_callbacks gateway message now t subs)
  unfolding deliver_callbacks
  deliver_callbacks-keeps none = q
  deliver_callbacks-keeps (some t) = elim (Bool-cases (is_terminal t)) [
    | inr e ↦ rw e q
    | inl e ↦ elim (Bool-cases (too_deep t)) [
      | inl d ↦ rw (e, d) q
      | inr d ↦
          rw (e, d)
            (round-Keeps (deliver_single gateway message now t) _
              (λ s k. single-Keeps Q now s k gateway message t))
    ]
  ]

  pub retry-keeps :
      (events : List TransitionRecord) (t : Option Task)
      → Q (retry_pending_deliveries gateway message now events t subs)
  unfolding retry_pending_deliveries
  retry-keeps events none = q
  retry-keeps events (some t) = elim (Bool-cases (is_terminal t)) [
    | inr e ↦ rw e q
    | inl e ↦ rw e (
        round-Keeps (retry_one gateway message now events t) _
          (λ s k. retry-Keeps Q now s k gateway message events t))
  ]

  pub deliver_all-keeps :
      (events : List TransitionRecord) (t : Option Task)
      → Q (deliver_all_granularity gateway message now events t subs)
  unfolding deliver_all_granularity
  deliver_all-keeps events none = q
  deliver_all-keeps events (some t) = elim (Bool-cases (too_deep t)) [
    | inl d ↦ rw d q
    | inr d ↦ rw d (
        round-Keeps (deliver_batch gateway now events t) _
          (λ s k. batch-Keeps Q now s k gateway message events t))
  ]
