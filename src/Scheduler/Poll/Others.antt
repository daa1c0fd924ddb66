-- ===== src/Scheduler/Poll/Others.antt =====
-- The parts of a poll that assign no task.
use aof.Prelude.{
  ℕ, Bool, true, false, Option, none, some, List, [], ◌∷◌, ◌++◌, Dict, leb, ◌≡◌, refl, sym, ◌∙◌,
  if◌then◌else◌, Option-cases, inl, inr, All, All-append, All-get,
}
use mathlib.Core.List.{Memᴰ}
use mathlib.Core.List.Memᴰ
use aof.Tasks.Schema.{Task, TaskLease}
use aof.Tasks.Promotion.{Eligibility, find_task, check_promotion_eligibility}
use aof.Scheduler.{
  SchedulerAction, requeue, dependencies_resolved, on_task, expiry_action, expired_of,
  expiry_actions, promotion_of, promotions,
}
use aof.Scheduler.Dispatch.Steps.{is_assign}
use aof.Scheduler.Recovery.{
  Fraction, RequeueGuard, allow, should_deadletter, backoff_not_elapsed, guarded,
  is_dispatch_failure, should_allow_spawn_failed_requeue, recovery_of, recover_each,
}
use aof.Scheduler.Poll.{Heartbeat, heartbeat_actions}

-- No action of the list is an assignment.
abbrev pub AssignsNone : List SchedulerAction → Type 0
AssignsNone actions = All (λ a. is_assign a.type ≡ false) actions

abbrev none_app :
    (xs ys : List SchedulerAction) → AssignsNone xs → AssignsNone ys → AssignsNone (xs ++ ys)
none_app xs ys = All-append (λ a. is_assign a.type ≡ false) xs ys

if_app :
    (b : Bool) (xs ys : List SchedulerAction)
    → AssignsNone xs
    → AssignsNone ys
    → AssignsNone (if b then xs else ys)
if_app true xs ys p q = p
if_app false xs ys p q = q

expired-AssignsNone : (now : ℕ) (t : Task) (o : Option TaskLease) → AssignsNone (expired_of now t o)
expired-AssignsNone now t none = tt
expired-AssignsNone now t (some lease) =
    if_app (leb lease.expires_at now) (expiry_action t lease ∷ []) [] (refl, tt) tt

pub expiry-AssignsNone : (now : ℕ) (ts : List Task) → AssignsNone (expiry_actions now ts)
unfolding expiry_actions
expiry-AssignsNone now [] = tt
expiry-AssignsNone now (t ∷ ts) =
    none_app (expired_of now t t.lease) _ (expired-AssignsNone now t t.lease)
      (expiry-AssignsNone now ts)

pub heartbeat-AssignsNone :
    (all : List Task) (hs : List Heartbeat) → AssignsNone (heartbeat_actions all hs)
unfolding heartbeat_actions
heartbeat-AssignsNone all [] = tt
heartbeat-AssignsNone all (h ∷ hs) = elim (Option-cases (find_task h.task_id all)) [
  | inl absent ↦ rw (heartbeat_actions, absent) (heartbeat-AssignsNone all hs)
  | inr (t, found) ↦ rw (heartbeat_actions, found) (refl, heartbeat-AssignsNone all hs)
]

promotion-AssignsNone : (t : Task) (e : Eligibility) → AssignsNone (promotion_of t e)
promotion-AssignsNone t Eligibility.eligible = (refl, tt)
promotion-AssignsNone t (Eligibility.missing_dependency d) = tt
promotion-AssignsNone t (Eligibility.waiting_on_dependency d) = tt
promotion-AssignsNone t Eligibility.waiting_on_subtasks = tt
promotion-AssignsNone t Eligibility.no_target = tt
promotion-AssignsNone t Eligibility.active_lease = tt

pub promotions-AssignsNone :
    (now : ℕ) (all : List Task) (children : Dict (List Task)) (ts : List Task)
    → AssignsNone (promotions now all children ts)
unfolding promotions
promotions-AssignsNone now all children [] = tt
promotions-AssignsNone now all children (t ∷ ts) =
    none_app _ _ (promotion-AssignsNone t (check_promotion_eligibility now t all children))
      (promotions-AssignsNone now all children ts)

guarded-AssignsNone : (t : Task) (g : RequeueGuard) → AssignsNone (guarded t g)
guarded-AssignsNone t (allow reason) = (refl, tt)
guarded-AssignsNone t (should_deadletter reason) = (refl, tt)
guarded-AssignsNone t backoff_not_elapsed = tt

recovery-AssignsNone :
    (now : ℕ) (r : Fraction) (max_retries : ℕ) (all : List Task) (children : Dict (List Task))
    (t : Task)
    → AssignsNone (recovery_of now r max_retries all children t)
unfolding recovery_of
recovery-AssignsNone now r max_retries all children t =
    if_app (is_dispatch_failure t.metadata.block_reason) _ _
      (guarded-AssignsNone t (should_allow_spawn_failed_requeue now r max_retries t))
      (if_app _ (on_task requeue t dependencies_resolved ∷ []) [] (refl, tt) tt)

pub recover-AssignsNone :
    (now : ℕ) (draw : Task → Fraction) (max_retries : ℕ) (all : List Task)
    (children : Dict (List Task)) (ts : List Task)
    → AssignsNone (recover_each now draw max_retries all children ts)
unfolding recover_each
recover-AssignsNone now draw max_retries all children [] = tt
recover-AssignsNone now draw max_retries all children (t ∷ ts) =
    none_app _ _ (recovery-AssignsNone now (draw t) max_retries all children t)
      (recover-AssignsNone now draw max_retries all children ts)

pub later :
    (a : SchedulerAction) (xs ys : List SchedulerAction)
    → AssignsNone xs
    → is_assign a.type ≡ true
    → Memᴰ a (xs ++ ys)
    → Memᴰ a ys
later a xs ys h assigns m = elim (Memᴰ.append_cases xs m) [
  | inl i ↦ let no : true ≡ false = sym assigns ∙ All-get (λ b. is_assign b.type ≡ false) i h in cc
  | inr i ↦ i
]

pub earlier :
    (a : SchedulerAction) (xs ys : List SchedulerAction)
    → AssignsNone ys
    → is_assign a.type ≡ true
    → Memᴰ a (xs ++ ys)
    → Memᴰ a xs
earlier a xs ys h assigns m = elim (Memᴰ.append_cases xs m) [
  | inl i ↦ i
  | inr i ↦ let no : true ≡ false = sym assigns ∙ All-get (λ b. is_assign b.type ≡ false) i h in cc
]
