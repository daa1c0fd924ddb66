-- ===== src/Subscriptions/Settled.antt =====
-- src/dispatch/callback-delivery.ts: the rounds leave what is no longer active.
use aof.Prelude.{
  ℕ, String, Bool, true, false, ◌==◌, List, [], ◌∷◌, ◌≡◌, refl, ap, ◌∙◌, arith, Bool-cases,
  Option-cases, inl, inr, keep, every, any_of, All, All-map, find-passes, eq_iff,
}
use aof.Subscriptions.Schema.{is_active, TaskSubscription}
use aof.Subscriptions.Store.{
  File, SubscriptionFields, find_sub, replace_sub, revise, apply_fields, update,
}
use aof.Subscriptions.Calls.{
  Operation, subscribe, unsubscribe, mark, append, deliver, retry, deliver_all, Call, perform,
  run_calls,
}
use aof.Subscriptions.Steps.{Updates, deliver_callbacks-keeps, retry-keeps, deliver_all-keeps}

abbrev pub subs_of : String → File → File
subs_of id subs = keep (λ s. s.id == id) subs

abbrev pub IsSettled : String → File → Type 0
IsSettled id subs = any_of (λ s. is_active s.status) (subs_of id subs) ≡ false

abbrev pub is_round : Operation → Bool
is_round (deliver _ _) = true
is_round (retry _ _ _) = true
is_round (deliver_all _ _ _) = true
is_round _ = false

replace-others :
    (id j : String) (u : TaskSubscription) (subs : File)
    → (u.id == id) ≡ false
    → (j == id) ≡ false
    → subs_of id (replace_sub j u subs) ≡ subs_of id subs
unfolding replace_sub
replace-others id j u [] a b = refl
replace-others id j u (s ∷ subs) a b = elim (Bool-cases (s.id == j)) [
  | inl e ↦
      let other : (s.id == id) ≡ false = ground (arith, eq_iff s.id j) in
      rw e (rw a (rw other refl))
  | inr e ↦ rw e (elim (Bool-cases (s.id == id)) [
    | inl here ↦ rw here (ap (λ ss. s ∷ ss) (replace-others id j u subs a b))
    | inr away ↦ rw away (replace-others id j u subs a b)
  ])
]

update-others :
    (now : ℕ) (id j : String) (f : SubscriptionFields) (subs : File)
    → (j == id) ≡ false
    → subs_of id (update now j f subs).1 ≡ subs_of id subs
unfolding update apply_fields revise find_sub
update-others now id j f subs other = elim (Option-cases (find_sub j subs)) [
  | inl missing ↦ rw (missing, revise) refl
  | inr (s, found) ↦
      let its_id : (s.id == j) ≡ true = (find-passes (λ x. x.id == j) subs found).0 in
      rw (found, revise)
        (replace-others id j (apply_fields now f s) subs (ground (arith, eq_iff s.id j)) other)
]

others_active :
    (id : String) (subs : File)
    → IsSettled id subs
    → All (λ s. is_active s.status ≡ true → (s.id == id) ≡ false) subs
others_active id [] h = tt
others_active id (s ∷ subs) h = elim (Bool-cases (s.id == id)) [
  | inl e ↦ ((λ is. ground arith), others_active id subs (ground arith))
  | inr e ↦ ((λ is. e), others_active id subs (ground arith))
]

-- The rest of the file changes as it may: `subs_of id` is what it was.
abbrev pub Same : String → File → File → Type 0
Same id subs subs' = subs_of id subs' ≡ subs_of id subs

pub Updates-others :
    (now : ℕ) (id : String) (subs : File) (s : TaskSubscription)
    → (s.id == id) ≡ false
    → Updates (Same id subs) now s
Updates-others now id subs s other f fit subs' same_before =
    update-others now id s.id f subs' other ∙ same_before

perform-Same :
    (message : ℕ → String → String) (now : ℕ) (id : String) (o : Operation) (subs : File)
    → is_round o ≡ true
    → IsSettled id subs
    → Same id subs (perform message now o subs)
unfolding perform
perform-Same message now id o subs r settled = go o r
  where
    others : All (λ s. is_active s.status ≡ true → Updates (Same id subs) now s) subs
    others =
        All-map (λ s away is. Updates-others now id subs s (away is)) subs
          (others_active id subs settled)

    go : (o : Operation) → is_round o ≡ true → Same id subs (perform message now o subs)
    go (deliver gateway t) r =
        deliver_callbacks-keeps (Same id subs) gateway message now subs others refl t
    go (retry gateway events t) r =
        retry-keeps (Same id subs) gateway message now subs others refl events t
    go (deliver_all gateway events t) r =
        deliver_all-keeps (Same id subs) gateway message now subs others refl events t
    go (subscribe _ _ _ _) r = cc
    go (unsubscribe _) r = cc
    go (mark _ _) r = cc
    go (append _ _) r = cc

-- The subscriptions with an identifier that has no active one among them are left as they are, every
-- field of them, by any sequence of delivery, retry and batch rounds, whatever the gateway answers.
pub run_calls_keep_settled :
    (message : ℕ → String → String) (cs : List Call) (id : String) (subs : File)
    → every (λ c. is_round c.operation) cs ≡ true
    → IsSettled id subs
    → subs_of id (run_calls message cs subs) ≡ subs_of id subs
unfolding run_calls
run_calls_keep_settled message [] id subs r settled = refl
run_calls_keep_settled message (c ∷ cs) id subs r settled =
    let step = perform-Same message c.now id c.operation subs (ground arith) settled in
    run_calls_keep_settled message cs id (perform message c.now c.operation subs) (ground arith)
      (ap (any_of (λ s. is_active s.status)) step ∙ settled)
    ∙ step
