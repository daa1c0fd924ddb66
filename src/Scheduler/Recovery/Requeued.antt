-- ===== src/Scheduler/Recovery/Requeued.antt =====
-- Which blocked tasks a poll recovers.
use aof.Prelude.{
  ℕ, ◌+◌, ◌≤◌, ◌<◌, String, Bool, true, false, ◌&&◌, Option, none, some, List, [], ◌∷◌, Dict, every,
  ◌≡◌, refl, arith, Bool-cases, inl, inr, ◌⊎◌, All, All-append, All-get, All-map, keep-All,
}
use mathlib.Core.List.{Memᴰ}
use aof.Tasks.Schema.{TaskStatus, blocked, done, same, Task}
use aof.Tasks.Promotion.{find_task, children_of}
use aof.Tasks.Failures.{or_zero}
use aof.Scheduler.{requeue, to_deadletter, Reason, SchedulerAction, on_task, having_status}
use aof.Scheduler.Dispatch.Gates.{IsDone}
use aof.Scheduler.Recovery.{
  Fraction, compute_retry_backoff_ms, RequeueGuard, allow, should_deadletter, backoff_not_elapsed,
  should_allow_spawn_failed_requeue, is_permanent, too_young, is_dispatch_failure, guarded,
  has_gate, all_resolved, recovery_of, recover_each, check_blocked_task_recovery,
}
use aof.Scheduler.Recovery.Backoff.{compute_retry_backoff_ms_bounds}

-- The task was blocked at least 45 seconds ago, if it is known when.
abbrev pub Waited : ℕ → Option ℕ → Type 0
Waited now none = Unit
Waited now (some at) = at + 45000 ≤ now

-- Why an action is taken on a blocked task.
pub data Recovers (now max_retries : ℕ) (all : List Task) (children : List Task) (t : Task)
    : SchedulerAction → Type 0 where
  retried :
      (reason : Reason)
      → is_dispatch_failure t.metadata.block_reason ≡ true
      → is_permanent t.metadata.error_class ≡ false
      → or_zero t.metadata.retry_count < max_retries
      → Waited now t.metadata.last_blocked_at
      → Recovers now max_retries all children t (on_task requeue t reason)
  buried :
      (reason : Reason)
      → is_dispatch_failure t.metadata.block_reason ≡ true
      → (is_permanent t.metadata.error_class ≡ true)
        ⊎ (max_retries ≤ or_zero t.metadata.retry_count)
      → Recovers now max_retries all children t (on_task to_deadletter t reason)
  unblocked :
      (reason : Reason)
      → is_dispatch_failure t.metadata.block_reason ≡ false
      → All (IsDone all) t.depends_on
      → All (λ c. c.status ≡ done) children
      → Recovers now max_retries all children t (on_task requeue t reason)

done-All :
    (ts : List Task) → every (λ c. same c.status done) ts ≡ true → All (λ c. c.status ≡ done) ts
done-All [] h = tt
done-All (t ∷ ts) h = (is_done t.status (ground arith), done-All ts (ground arith))
  where
    is_done : (st : TaskStatus) → same st done ≡ true → st ≡ done
    is_done st e = ground arith

abbrev done_in : List Task → String → Bool
done_in all d = elim (find_task d all) [ none ↦ false | some u ↦ same u.status done ]

deps-IsDone :
    (all : List Task) (deps : List String) → every (done_in all) deps ≡ true → All (IsDone all) deps
deps-IsDone all [] h = tt
deps-IsDone all (d ∷ ds) h = (one (find_task d all) refl, deps-IsDone all ds (ground arith))
  where
    one : (o : Option Task) → find_task d all ≡ o → IsDone all d
    one none e = let no : true ≡ false = ground arith in cc
    one (some u) e = (u, e, ground arith)

waited :
    (now : ℕ) (r : Fraction) (n : ℕ) (o : Option ℕ)
    → r.part < r.unit
    → too_young now (compute_retry_backoff_ms r n) o ≡ false
    → Waited now o
waited now r n none h e = tt
waited now r n (some at) h e =
    let (a, b, least, c) = compute_retry_backoff_ms_bounds r n h in ground arith

module _ (now : ℕ) (r : Fraction) (max_retries : ℕ) (all : List Task) (children : List Task)
    (t : Task) (proper : r.part < r.unit) where
  guarded-Recovers :
      (g : RequeueGuard)
      → is_dispatch_failure t.metadata.block_reason ≡ true
      → should_allow_spawn_failed_requeue now r max_retries t ≡ g
      → All (Recovers now max_retries all children t) (guarded t g)
  unfolding should_allow_spawn_failed_requeue
  guarded-Recovers (allow reason) f e =
      let old : too_young now (compute_retry_backoff_ms r (or_zero t.metadata.retry_count))
            t.metadata.last_blocked_at
          ≡ false =
        ground arith in
      (
        retried reason f (ground arith) (ground arith)
            (waited now r (or_zero t.metadata.retry_count) t.metadata.last_blocked_at proper old),
        tt,
      )
  guarded-Recovers (should_deadletter reason) f e = (buried reason f (ground arith), tt)
  guarded-Recovers backoff_not_elapsed f e = tt

recovery_of-Recovers :
    (now : ℕ) (r : Fraction) (max_retries : ℕ) (all : List Task) (children : Dict (List Task))
    (t : Task)
    → r.part < r.unit
    → All
        (Recovers now max_retries all (children_of children t.id) t)
        (recovery_of now r max_retries all children t)
unfolding recovery_of all_resolved
recovery_of-Recovers now r max_retries all children t proper =
    let kids = children_of children t.id in
    elim (Bool-cases (is_dispatch_failure t.metadata.block_reason)) [
      | inl f ↦ rw (recovery_of, f) (guarded-Recovers now r max_retries all kids t proper _ f refl)
      | inr f ↦ elim (Bool-cases (has_gate t.depends_on kids && all_resolved all t kids)) [
        | inl yes_it_is ↦
            rw (recovery_of, f, yes_it_is)
              (
                unblocked _ f (deps-IsDone all t.depends_on (ground arith))
                    (done-All kids (ground arith)),
                tt,
              )
        | inr not_yet ↦ rw (recovery_of, f, not_yet) tt
      ]
    ]

-- The blocked task that an action is on, and why it is taken.
pub record IsRecovery (now max_retries : ℕ) (all : List Task) (children : Dict (List Task))
    (a : SchedulerAction) : Type 0 where
  pub task : Task
  pub listed : Memᴰ task all
  pub stuck : task.status ≡ blocked
  pub cause : Recovers now max_retries all (children_of children task.id) task a

blocked_status : (st : TaskStatus) → same st blocked ≡ true → st ≡ blocked
blocked_status st e = ground arith

module _ (now : ℕ) (draw : Task → Fraction) (max_retries : ℕ) (all : List Task)
    (children : Dict (List Task)) (proper : (t : Task) → (draw t).part < (draw t).unit) where
  recover_each-All :
      (ts : List Task)
      → All (λ t. Memᴰ t all × (t.status ≡ blocked)) ts
      → All
          (IsRecovery now max_retries all children)
          (recover_each now draw max_retries all children ts)
  unfolding recover_each
  recover_each-All [] h = tt
  recover_each-All (t ∷ ts) ((m, b), hs) =
      All-append _ (recovery_of now (draw t) max_retries all children t) _
        (All-map (λ a cause. record { task = t; listed = m; stuck = b; cause = cause }) _
          (recovery_of-Recovers now (draw t) max_retries all children t (proper t)))
        (recover_each-All ts hs)

-- If every random number is below 1: each recovery action is on a blocked task of the listing. It
-- requeues a task whose dispatch failed only if the error is not permanent, retries are left, and the task was blocked at
-- least 45 seconds ago, if it is known when; it requeues another only if its dependencies and subtasks are all done; and
-- it is a dead letter only for a failed dispatch with a permanent error or without retries left.
pub check_blocked_task_recovery_sound :
    (now : ℕ) (draw : Task → Fraction) (max_retries : ℕ) (all : List Task)
    (children : Dict (List Task)) (a : SchedulerAction)
    → ((t : Task) → (draw t).part < (draw t).unit)
    → Memᴰ a (check_blocked_task_recovery now draw max_retries all children)
    → IsRecovery now max_retries all children a
unfolding check_blocked_task_recovery
check_blocked_task_recovery_sound now draw max_retries all children a proper m =
    All-get (IsRecovery now max_retries all children) m (
      recover_each-All now draw max_retries all children proper (having_status blocked all) (
        All-map {P = λ t. (same t.status blocked ≡ true) × Memᴰ t all}
          (λ t (stuck, m). (m, blocked_status t.status stuck)) (having_status blocked all)
          (keep-All (λ t. same t.status blocked) all)))
