-- ===== src/Scheduler/Dispatch/Gates.antt =====
-- Which tasks a poll assigns.
use aof.Prelude.{
  String, true, false, none, some, List, [], ◌∷◌, ◌≡◌, refl, sym, ◌∙◌, arith, includes, Bool-cases,
  Option-cases, ◌⊎◌, inl, inr, All, All-append, All-get,
}
use mathlib.Core.List.{Memᴰ}
use aof.Tasks.Schema.{Task, TaskStatus, done, same}
use aof.Tasks.Promotion.{find_task}
use aof.Tasks.Lease.{is_lease_active}
use aof.Scheduler.{SchedulerAction}
use aof.Scheduler.Limits.{Poll, Plan, unresolved_deps, no_texts, is_occupied, target_agent}
use aof.Scheduler.Dispatch.{
  gate, decide, assignment, carry_out, plan_each, block_parents, blocks_parent, initial_plan,
  build_dispatch_actions,
}
use aof.Scheduler.Dispatch.Steps.{is_assign, carry_out_keeps, plan_each_keeps}

-- The listing has a task of the identifier, and it is done.
abbrev pub IsDone : List Task → String → Type 0
IsDone all d = (u : Task) × (find_task d all ≡ some u) × (u.status ≡ done)

-- A task that nothing holds back.
pub record IsFree (p : Poll) (t : Task) : Type 0 where
  pub no_subtasks : includes t.id p.blocked_by_subtasks ≡ false
  pub no_cycle : includes t.id p.circular_deps ≡ false
  pub resolved : All (IsDone p.all) t.depends_on
  pub unleased : is_lease_active p.now t.lease ≡ false
  pub available : is_occupied p.occupied_resources t.resource ≡ false

same_done : (st : TaskStatus) → same st done ≡ true → st ≡ done
same_done st h = ground arith

unresolved-All :
    (all : List Task) (deps : List String)
    → no_texts (unresolved_deps all deps) ≡ true
    → All (IsDone all) deps
unfolding unresolved_deps
unresolved-All all [] h = tt
unresolved-All all (d ∷ ds) h = elim (Option-cases (find_task d all)) [
  | inl missing ↦ let no : true ≡ false = ground arith in cc
  | inr (u, found) ↦ elim (Bool-cases (same u.status done)) [
    | inl over ↦ ((u, found, same_done u.status over), unresolved-All all ds (ground arith))
    | inr waits ↦ let no : true ≡ false = ground arith in cc
  ]
]

gate-IsFree : (p : Poll) (t : Task) → gate p t ≡ none → IsFree p t
unfolding gate
gate-IsFree p t h = record {
  no_subtasks = ground arith;
  no_cycle = ground arith;
  resolved = unresolved-All p.all t.depends_on (ground arith);
  unleased = ground arith;
  available = ground arith;
}

-- The task that an assignment is for.
pub record IsAssigned (p : Poll) (ts : List Task) (a : SchedulerAction) : Type 0 where
  pub task : Task
  pub agent : String
  pub listed : Memᴰ task ts
  pub free : IsFree p task
  pub targeted : target_agent p.teams task.routing ≡ some agent
  pub is : a ≡ assignment task agent

abbrev Explained : Poll → List Task → SchedulerAction → Type 0
Explained p ts a = (is_assign a.type ≡ false) ⊎ IsAssigned p ts a

step-Explained :
    (p : Poll) (ts : List Task) (t : Task) (plan : Plan)
    → Memᴰ t ts
    → All (Explained p ts) plan.actions
    → All (Explained p ts) (carry_out p t (decide p plan t) plan).actions
unfolding carry_out
step-Explained p ts t plan m h =
    carry_out_keeps (λ q. All (Explained p ts) q.actions) p plan t
      (λ a other. All-append _ plan.actions (a ∷ []) h (inl other, tt))
      (λ agent pass. All-append _ plan.actions (assignment t agent ∷ []) h (
        inr (record {
          task = t;
          agent = agent;
          listed = m;
          free = gate-IsFree p t pass.open_gate;
          targeted = pass.targeted;
          is = refl;
        }),
        tt,
      ))
      h

parents-Explained : (p : Poll) (ts us : List Task) → All (Explained p ts) (block_parents p us)
unfolding block_parents
parents-Explained p ts [] = tt
parents-Explained p ts (u ∷ us) = elim (Bool-cases (blocks_parent p u)) [
  | inl b ↦ rw (block_parents, b) (inl refl, parents-Explained p ts us)
  | inr b ↦ rw (block_parents, b) (parents-Explained p ts us)
]

-- Each assignment that a poll plans is for a ready task of the listing, to its target; the dependencies of
-- the task are all done, it is neither a parent with incomplete subtasks nor on a known cycle, its lease is
-- not active, and its resource is not held by a task in progress.
pub build_dispatch_actions_sound :
    (p : Poll) (ready : List Task) (a : SchedulerAction)
    → Memᴰ a (build_dispatch_actions p ready)
    → is_assign a.type ≡ true
    → IsAssigned p ready a
unfolding build_dispatch_actions initial_plan
build_dispatch_actions_sound p ready a m assigns =
    let loop : All (Explained p ready) (plan_each p ready (initial_plan p)).actions =
      plan_each_keeps (λ q. All (Explained p ready) q.actions) p ready (initial_plan p)
        (λ t q listed. step-Explained p ready t q listed) tt in
    let all : All (Explained p ready) (build_dispatch_actions p ready) =
      All-append (Explained p ready) _ (block_parents p p.all) loop
        (parents-Explained p ready p.all) in
    elim (All-get (Explained p ready) m all) [
      | inl other ↦ let no : true ≡ false = sym assigns ∙ other in cc
      | inr assigned ↦ assigned
    ]
