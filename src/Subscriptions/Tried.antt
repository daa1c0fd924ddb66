-- ===== src/Subscriptions/Tried.antt =====
-- src/dispatch/callback-delivery.ts: what a retry round does to the subscription that it tries.
use aof.Prelude.{
  ℕ, ◌+◌, String, Bool, true, false, ◌==◌, Option, some, List, [], ◌∷◌, ◌≡◌, refl, sym, ap, ◌∙◌,
  arith, if◌then◌else◌, Bool-cases, inl, inr, keep, ltb, leb, eq_iff,
}
use aof.Tasks.Schema.{Task}
use aof.Subscriptions.Schema.{failed, delivered, TaskSubscription}
use aof.Subscriptions.Store.{
  File, SubscriptionFields, find_sub, replace_sub, revise, apply_fields, update,
}
use aof.Subscriptions.Delivery.{
  TransitionRecord, SessionContext, SpawnResult, spawned, refused, raised, Step, deliver_single,
  session_context, handle_delivery_failure, error_text, max_delivery_attempts, rescue, write_fields,
  sent_fields, failure_fields,
}
use aof.Subscriptions.Rounds.{each, is_completion, tried_recently, retry_one}
use aof.Subscriptions.Steps.{SpawnResult-cases}
use aof.Subscriptions.Settled.{subs_of}

-- The subscription after a failure, and after a try.
abbrev pub failed_once : (ℕ → String → String) → ℕ → String → TaskSubscription → TaskSubscription
failed_once message now e s =
    let n = s.delivery_attempts + 1 in
    let tried : TaskSubscription = record s {
      delivery_attempts = n;
      last_attempt_at = some now;
      updated_at = now;
    } in
    if ltb n 3 then tried else record tried { status = failed; failure_reason = some (message n e) }

abbrev pub outcome : (ℕ → String → String) → ℕ → SpawnResult → TaskSubscription → TaskSubscription
outcome message now spawned s = record s {
  status = delivered;
  delivered_at = some now;
  updated_at = now;
}
outcome message now (refused e) s = failed_once message now (error_text e) s
outcome message now (raised m) s = failed_once message now m s

keep_comm {ℓ} :
    {A : Type ℓ} (p q : A → Bool) (xs : List A) → keep p (keep q xs) ≡ keep q (keep p xs)
keep_comm p q [] = refl
keep_comm p q (x ∷ xs) = elim (Bool-cases (p x)) [
  | inl a ↦ elim (Bool-cases (q x)) [
    | inl b ↦ rw (a, b) (rw a (ap (λ ys. x ∷ ys) (keep_comm p q xs)))
    | inr b ↦ rw (a, b) (keep_comm p q xs)
  ]
  | inr a ↦ elim (Bool-cases (q x)) [
    | inl b ↦ rw (a, b) (rw a (keep_comm p q xs))
    | inr b ↦ rw (a, b) (keep_comm p q xs)
  ]
]

pub keep_one :
    (id : String) (q : TaskSubscription → Bool) (s : TaskSubscription) (xs : File)
    → subs_of id xs ≡ s ∷ []
    → q s ≡ true
    → subs_of id (keep q xs) ≡ s ∷ []
keep_one id q s xs one passes = keep_comm (λ x. x.id == id) q xs ∙ ap (keep q) one ∙ rw passes refl

∷_eq : {x s : TaskSubscription} {xs ys : File} → x ∷ xs ≡ s ∷ ys → (x ≡ s) × (xs ≡ ys)
∷_eq h = (cc, cc)

module _ (id : String) (s : TaskSubscription) where
  one_found : (subs : File) → subs_of id subs ≡ s ∷ [] → (find_sub id subs ≡ some s) × (s.id ≡ id)
  unfolding find_sub
  one_found [] h = cc
  one_found (x ∷ subs) h = elim (Bool-cases (x.id == id)) [
    | inl e ↦
        let shown : x ∷ subs_of id subs ≡ s ∷ [] = ground arith in
        let it = (∷_eq shown).0 in
        (rw e (ap some it), ap (λ (y : TaskSubscription). y.id) (sym it) ∙ (eq_iff x.id id).0 e)
    | inr e ↦ let (found, k) = one_found subs (ground arith) in (rw e found, k)
  ]

  replace_one :
      (u : TaskSubscription) (subs : File)
      → subs_of id subs ≡ s ∷ []
      → u.id ≡ id
      → subs_of id (replace_sub id u subs) ≡ u ∷ []
  unfolding replace_sub
  replace_one u [] h k = cc
  replace_one u (x ∷ subs) h k = elim (Bool-cases (x.id == id)) [
    | inl e ↦
        let shown : x ∷ subs_of id subs ≡ s ∷ [] = ground arith in
        let rest = (∷_eq shown).1 in
        let here : (u.id == id) ≡ true = (eq_iff u.id id).1 k in
        rw e (rw here (ap (λ ys. u ∷ ys) rest))
    | inr e ↦ rw e (rw e (replace_one u subs (ground arith) k))
  ]

write_one :
    (now : ℕ) (s : TaskSubscription) (f : SubscriptionFields) (subs : File)
    → subs_of s.id subs ≡ s ∷ []
    → write_fields now s.id f subs ≡ (some tt, replace_sub s.id (apply_fields now f s) subs)
unfolding update
write_one now s f subs one = let (found, k) = one_found s.id s subs one in rw (found, revise) refl

write-one_left :
    (now : ℕ) (s : TaskSubscription) (f : SubscriptionFields) (subs : File)
    → subs_of s.id subs ≡ s ∷ []
    → subs_of s.id (write_fields now s.id f subs).1 ≡ apply_fields now f s ∷ []
unfolding apply_fields
write-one_left now s f subs one =
    ap (λ (r : Option (Unit {0}) × File). subs_of s.id r.1) (write_one now s f subs one)
    ∙ replace_one s.id s (apply_fields now f s) subs one refl

failure_fields_lem :
    (message : ℕ → String → String) (now : ℕ) (s : TaskSubscription) (e : String)
    → apply_fields now (failure_fields message now (s.delivery_attempts + 1) e) s
      ≡ failed_once message now e s
unfolding apply_fields
failure_fields_lem message now s e = elim (Bool-cases (ltb (s.delivery_attempts + 1) 3)) [
  | inl few ↦
      let test : leb max_delivery_attempts (s.delivery_attempts + 1) ≡ false = ground arith in
      rw few (rw test refl)
  | inr spent ↦
      let test : leb max_delivery_attempts (s.delivery_attempts + 1) ≡ true = ground arith in
      rw spent (rw test refl)
]

failure_one :
    (message : ℕ → String → String) (now : ℕ) (s : TaskSubscription) (e : String) (subs : File)
    → subs_of s.id subs ≡ s ∷ []
    → (subs_of s.id (handle_delivery_failure message now s e subs).1
        ≡ failed_once message now e s ∷ [])
      × ((handle_delivery_failure message now s e subs).0 ≡ some tt)
unfolding handle_delivery_failure
failure_one message now s e subs one =
    let f = failure_fields message now (s.delivery_attempts + 1) e in
    (
      write-one_left now s f subs one ∙ ap (λ u. u ∷ []) (failure_fields_lem message now s e),
      ap (λ (r : Option (Unit {0}) × File). r.0) (write_one now s f subs one),
    )

rescue_fine : (a b : Step) (subs : File) → (a subs).0 ≡ some tt → (rescue a b subs).1 ≡ (a subs).1
rescue_fine a b subs e = rw (e, rescue) refl

module _ (gateway : TaskSubscription → SessionContext → SpawnResult) (message : ℕ → String → String)
    (now : ℕ) where
  sent_one :
      (s : TaskSubscription) (subs : File)
      → subs_of s.id subs ≡ s ∷ []
      → subs_of s.id (write_fields now s.id (sent_fields now) subs).1
        ≡ record s { status = delivered; delivered_at = some now; updated_at = now } ∷ []
  unfolding apply_fields
  sent_one s subs one = write-one_left now s (sent_fields now) subs one

  single_one :
      (t : Task) (s : TaskSubscription) (subs : File)
      → subs_of s.id subs ≡ s ∷ []
      → subs_of s.id (deliver_single gateway message now t s subs).1
        ≡ outcome message now (gateway s (session_context t s [])) s ∷ []
  unfolding deliver_single
  single_one t s subs one = elim (SpawnResult-cases (gateway s (session_context t s []))) [
    | inl e ↦
        let a = write_fields now s.id (sent_fields now) in
        let fine : (a subs).0 ≡ some tt =
          ap (λ (r : Option (Unit {0}) × File). r.0) (write_one now s (sent_fields now) subs one) in
        rw (e, deliver_single)
          (ap (subs_of s.id)
              (rescue_fine a (handle_delivery_failure message now s "not found") subs fine)
            ∙ sent_one s subs one)
    | inr (inl (m, e)) ↦
        let (left, fine) = failure_one message now s (error_text m) subs one in
        let a = handle_delivery_failure message now s (error_text m) in
        rw (e, deliver_single)
          (ap (subs_of s.id)
              (rescue_fine a (handle_delivery_failure message now s "not found") subs fine)
            ∙ left)
    | inr (inr (m, e)) ↦ rw (e, deliver_single) (failure_one message now s m subs one).0
  ]

  pub retry_one_tries :
      (events : List TransitionRecord) (t : Task) (s : TaskSubscription) (subs : File)
      → subs_of s.id subs ≡ s ∷ []
      → tried_recently now s.last_attempt_at ≡ false
      → is_completion s.granularity ≡ true
      → subs_of s.id (retry_one gateway message now events t s subs).1
        ≡ outcome message now (gateway s (session_context t s [])) s ∷ []
  unfolding retry_one
  retry_one_tries events t s subs one due c = rw (due, c) (single_one t s subs one)

-- A round of steps over the listing, at the only subscription with its identifier.
module _ (step : TaskSubscription → Step) (id : String)
    (away : (x : TaskSubscription) (subs : File)
      → (x.id == id) ≡ false
      → subs_of id (step x subs).1 ≡ subs_of id subs) where
  each_none :
      (ss : List TaskSubscription) (subs : File)
      → subs_of id ss ≡ []
      → subs_of id (each step ss subs) ≡ subs_of id subs
  unfolding each
  each_none [] subs h = refl
  each_none (x ∷ ss) subs h = elim (Bool-cases (x.id == id)) [
    | inl e ↦ ground arith
    | inr e ↦ each_none ss (step x subs).1 (ground arith) ∙ away x subs e
  ]

  pub each_one :
      (s u : TaskSubscription) (ss : List TaskSubscription) (subs : File)
      → subs_of id ss ≡ s ∷ []
      → ((subs' : File) → subs_of id subs' ≡ s ∷ [] → subs_of id (step s subs').1 ≡ u ∷ [])
      → subs_of id subs ≡ s ∷ []
      → subs_of id (each step ss subs) ≡ u ∷ []
  unfolding each
  each_one s u [] subs h at_s one = cc
  each_one s u (x ∷ ss) subs h at_s one = elim (Bool-cases (x.id == id)) [
    | inl e ↦
        let shown : x ∷ subs_of id ss ≡ s ∷ [] = ground arith in
        let (it, rest) = ∷_eq shown in
        each_none ss (step x subs).1 rest ∙ ap (λ y. subs_of id (step y subs).1) it ∙ at_s subs one
    | inr e ↦ each_one s u ss (step x subs).1 (ground arith) at_s (away x subs e ∙ one)
  ]
