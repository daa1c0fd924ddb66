-- ===== src/Tasks/Cascade/Promoted.antt =====
-- What a completion does to the tasks that wait for it.
use aof.Prelude.{
  ℕ, String, true, ◌&&◌, Option, none, some, lookup, List, [], ◌∷◌, ◌≡◌, ◌↔◌, refl, sym, subst, ◌∙◌,
  ap, arith, if◌then◌else◌, Bool-cases, inl, inr, includes, All,
}
use aof.Tasks.Schema.{TaskStatus, backlog, ready, one_of, Task}
use aof.Tasks.Store.{Store, return}
use aof.Tasks.Cascade.{CascadeResult, list_tasks, dependents, nothing_done, cascade_on_completion}
use aof.Tasks.Cascade.Listed.{IsDone, Awaits, promoted_iff, skipped_iff}
use aof.Tasks.Cascade.Promoting.{IsListed, Waits, waiting, promote_each_lem}

dependents-All {κ} :
    (P : Task → Type κ) (id : String) (sts : List TaskStatus) (ts : List Task)
    → All P ts
    → All P (dependents id sts ts)
unfolding dependents
dependents-All P id sts [] h = h
dependents-All P id sts (t ∷ ts) (h, hs) =
    let rest = dependents-All P id sts ts hs in
    elim (Bool-cases (includes id t.depends_on && one_of t.status sts)) [
      | inl kept ↦ rw (dependents, kept) (h, rest)
      | inr left ↦ rw (dependents, left) rest
    ]

dependents-waiting :
    (id : String) (ts : List Task)
    → All (λ t. waiting t ≡ true) (dependents id (backlog ∷ TaskStatus.blocked ∷ []) ts)
unfolding dependents
dependents-waiting id [] = tt
dependents-waiting id (t ∷ ts) =
    let rest = dependents-waiting id ts in
    let sts = backlog ∷ TaskStatus.blocked ∷ [] in
    elim (Bool-cases (includes id t.depends_on && one_of t.status sts)) [
      | inl kept ↦ let fits : waiting t ≡ true = ground arith in rw (dependents, kept) (fits, rest)
      | inr left ↦ rw (dependents, left) rest
    ]

All-Waits : (s : Store) (ts : List Task) → All (λ t. lookup t.id s ≡ some t) ts → All (Waits s) ts
All-Waits s [] h = tt
All-Waits s (t ∷ ts) (h, hs) = (inl h, All-Waits s ts hs)

abbrev pub status_in : Option Task → Option TaskStatus
status_in none = none
status_in (some t) = some t.status

abbrev pub status_at : Store → String → Option TaskStatus
status_at s id = status_in (lookup id s)

-- In a store whose tasks are each found under their own identifier, the cascade of a completion returns. Of the
-- listed tasks that name the completed one among their dependencies and are in the backlog or blocked, it promotes
-- exactly those whose every dependency is listed as done, and skips exactly the others. A promoted
-- task is ready then, and every other task has the status that it had.
pub cascade_on_completion_lem :
    (now : ℕ) (id j : String) (s : Store)
    → IsListed s
    → (r : CascadeResult) × (s' : Store) × (cascade_on_completion now id s ≡ (return r, s'))
      × ((includes j r.promoted ≡ true)
          ↔ ((t : Task) × Awaits id (list_tasks s) j t × All (IsDone (list_tasks s)) t.depends_on))
      × ((includes j r.skipped ≡ true) ↔ (
          (t : Task) × Awaits id (list_tasks s) j t × ¬ All (IsDone (list_tasks s)) t.depends_on))
      × (status_at s' j ≡ (if includes j r.promoted then some ready else status_at s j))
unfolding cascade_on_completion
cascade_on_completion_lem now id j s listed =
    let ts = dependents id (backlog ∷ TaskStatus.blocked ∷ []) (list_tasks s) in
    let (r, s', runs, e) =
      promote_each_lem now (list_tasks s) ts nothing_done s
        (dependents-All (Waits s) id (backlog ∷ TaskStatus.blocked ∷ []) (list_tasks s)
          (All-Waits s (list_tasks s) listed))
        (dependents-waiting id (list_tasks s)) in
    (
      r,
      s',
      runs,
      subst
          (λ ids. (includes j ids ≡ true) ↔ (
            (t : Task) × Awaits id (list_tasks s) j t × All (IsDone (list_tasks s)) t.depends_on))
          (sym e.promoted_eq) (promoted_iff s id j listed),
      subst
          (λ ids. (includes j ids ≡ true) ↔ (
            (t : Task) × Awaits id (list_tasks s) j t × ¬ All (IsDone (list_tasks s)) t.depends_on))
          (sym e.skipped_eq) (skipped_iff s id j listed),
      elim (Bool-cases (includes j r.promoted)) [
        | inl yes_promoted ↦ elim (e.promotes j yes_promoted) [
          | inl before ↦ cc
          | inr (t, found, key, is_ready) ↦ ap status_in found ∙ rw (yes_promoted, is_ready) refl
        ]
        | inr other ↦ rw other (ap status_in (e.frame j other))
      ],
    )
