-- ===== src/Scheduler/Dispatch/Teams.antt =====
-- How many assignments of one team a poll plans.
use aof.Prelude.{
  ℕ, zero, suc, ◌+◌, ◌≤◌, String, Bool, true, false, ◌&&◌, Option, none, some, List, [], ◌∷◌, ◌++◌,
  Dict, lookup, lookup-insert, ◌≡◌, refl, sym, ◌∙◌, ap, arith, eq_iff, eq_refl, ◌==◌, includes,
  if◌then◌else◌, Bool-cases, inl, inr, ◌⊎◌,
}
use mathlib.Core.List.{Memᴰ}
use aof.Tasks.Schema.{Task}
use aof.Tasks.Promotion.{find_task}
use aof.Throttle.{ThrottleState, ThrottleCheckParams, allowed, named, check_throttle}
use aof.Workflow.Acyclic.Counts.{NoDup}
use aof.Scheduler.{SchedulerAction}
use aof.Scheduler.Limits.{
  Poll, Plan, TeamDispatch, throttle_params, running, count_in, running_by_team, team_config_map,
}
use aof.Scheduler.Dispatch.{
  dispatch_to, decide, assignment, reserve, carry_out, plan_each, block_parents, blocks_parent,
  initial_plan, build_dispatch_actions,
}
use aof.Scheduler.Dispatch.Steps.{is_assign, Passes, carry_out_keeps, plan_each_keeps}

abbrev is_named : String → Option String → Bool
is_named team none = false
is_named team (some t) = t == team

abbrev one_if : Bool → ℕ
one_if true = 1
one_if false = 0

as_number : (b : Bool) → (if b then suc zero else zero) ≡ one_if b
as_number true = refl
as_number false = refl

abbrev of_team : String → Task → Bool
of_team team t = is_named team (named t.routing.team)

-- The number of tasks of a team.
unfoldable pub team_count : String → List Task → ℕ
team_count team [] = 0
team_count team (t ∷ ts) =
    let rest = team_count team ts in if of_team team t then suc rest else rest

abbrev found_of_team : String → Option Task → Bool
found_of_team team none = false
found_of_team team (some t) = of_team team t

-- The number of assignments, among the actions, of listed tasks of a team.
unfoldable pub team_assigns : String → List Task → List SchedulerAction → ℕ
unfolding find_task
team_assigns team ts [] = 0
team_assigns team ts (a ∷ actions) =
    let rest = team_assigns team ts actions in
    if is_assign a.type && found_of_team team (find_task a.task_id ts) then suc rest else rest

team_assigns-append :
    (team : String) (ts : List Task) (xs ys : List SchedulerAction)
    → team_assigns team ts (xs ++ ys) ≡ team_assigns team ts xs + team_assigns team ts ys
unfolding team_assigns
team_assigns-append team ts [] ys = omega arith
team_assigns-append team ts (x ∷ xs) ys = ground (arith, team_assigns-append team ts xs ys)

parents_assign_none :
    (team : String) (p : Poll) (ts us : List Task) → team_assigns team ts (block_parents p us) ≡ 0
unfolding block_parents team_assigns
parents_assign_none team p ts [] = refl
parents_assign_none team p ts (u ∷ us) = elim (Bool-cases (blocks_parent p u)) [
  | inl b ↦ rw (block_parents, b) (parents_assign_none team p ts us)
  | inr b ↦ rw (block_parents, b) (parents_assign_none team p ts us)
]

abbrev task_ids : List Task → List String
task_ids [] = []
task_ids (t ∷ ts) = t.id ∷ task_ids ts

listed_id : (t : Task) (ts : List Task) → Memᴰ t ts → includes t.id (task_ids ts) ≡ true
listed_id t [] m = elim m [ ]
listed_id t (u ∷ us) (Memᴰ.head e) = rw (sym e, eq_refl t.id)
listed_id t (u ∷ us) (Memᴰ.tail m) = ground (arith, listed_id t us m)

find_task_listed :
    (t : Task) (ts : List Task) → NoDup (task_ids ts) → Memᴰ t ts → find_task t.id ts ≡ some t
unfolding find_task
find_task_listed t [] d m = elim m [ ]
find_task_listed t (u ∷ us) d (Memᴰ.head e) = rw (sym e, eq_refl t.id)
find_task_listed t (u ∷ us) d (Memᴰ.tail m) =
    let listed = listed_id t us m in
    let other : (u.id == t.id) ≡ false = ground (arith, eq_iff u.id t.id, d.0) in
    rw (find_task, other) (find_task_listed t us d.1 m)

count_in-running :
    (team : String) (o : Option String) (m : Dict ℕ)
    → running (count_in o m) team ≡ running m team + one_if (is_named team o)
count_in-running team none m = omega arith
count_in-running team (some t) m =
    ground (arith, lookup-insert t team (suc (running m t)) m, eq_iff t team)

-- The map holds the number of tasks of each team.
running_by_team-count :
    (team : String) (ts : List Task) (m : Dict ℕ)
    → running (running_by_team ts m) team ≡ running m team + team_count team ts
unfolding running_by_team team_count
running_by_team-count team [] m = omega arith
running_by_team-count team (t ∷ ts) m =
    running_by_team-count team ts (count_in (named t.routing.team) m)
    ∙ ground (arith, count_in-running team (named t.routing.team) m)

check_throttle_team :
    (now n limit : ℕ) (team : String) (s : ThrottleState) (c : ThrottleCheckParams)
    → check_throttle now s c ≡ allowed
    → named c.team ≡ some team
    → c.team_in_progress ≡ some n
    → c.team_max_concurrent ≡ some limit
    → suc n ≤ limit
unfolding check_throttle
check_throttle_team now n limit team s c h e i l = ground arith

is_named_lem : (team : String) (o : Option String) → is_named team o ≡ true → o ≡ some team
is_named_lem team none h = cc
is_named_lem team (some t) h = ap some ((eq_iff t team).0 h)

module _ (p : Poll) (ready : List Task) (team : String) (d : TeamDispatch) (limit : ℕ)
    (distinct : NoDup (task_ids ready)) (active : p.dry_run ≡ false)
    (configured : lookup team (team_config_map p.teams []) ≡ some d)
    (limited : d.max_concurrent ≡ some limit) where
  -- The reservations are right, and within the limit if any was made.
  record Reserved (plan : Plan) : Type 0 where
    counts :
        running plan.in_progress_by_team team
        ≡ team_count team p.in_progress_tasks + team_assigns team ready plan.actions
    within :
        (team_assigns team ready plan.actions ≡ 0) ⊎ (running plan.in_progress_by_team team ≤ limit)

  below_limit :
      (t : Task) (plan : Plan) (agent : String)
      → Passes p plan t agent
      → is_named team (named t.routing.team) ≡ true
      → suc (running plan.in_progress_by_team team) ≤ limit
  unfolding throttle_params
  below_limit t plan agent pass ours =
      let at = is_named_lem team (named t.routing.team) ours in
      check_throttle_team p.now (running plan.in_progress_by_team team) limit team p.throttle
        (throttle_params p plan t) pass.fits at (rw at refl) (rw (at, configured, limited) refl)

  assign_one :
      (t : Task) (plan : Plan) (agent : String)
      → Memᴰ t ready
      → team_assigns team ready (plan.actions ++ assignment t agent ∷ [])
        ≡ team_assigns team ready plan.actions + one_if (of_team team t)
  unfolding team_assigns
  assign_one t plan agent m =
      team_assigns-append team ready plan.actions (assignment t agent ∷ [])
      ∙ ap (λ n. team_assigns team ready plan.actions + n)
          (rw (find_task_listed t ready distinct m) (as_number (of_team team t)))

  assign_other :
      (a : SchedulerAction) (plan : Plan)
      → is_assign a.type ≡ false
      → team_assigns team ready (plan.actions ++ a ∷ []) ≡ team_assigns team ready plan.actions
  unfolding team_assigns
  assign_other a plan other =
      team_assigns-append team ready plan.actions (a ∷ []) ∙ rw other (omega arith)

  reserve_one :
      (t : Task) (m : Dict ℕ)
      → running (reserve p t m) team ≡ running m team + one_if (of_team team t)
  reserve_one t m = rw active (count_in-running team (named t.routing.team) m)

  assign-Reserved :
      (t : Task) (plan : Plan) (agent : String)
      → Memᴰ t ready
      → Passes p plan t agent
      → Reserved plan
      → Reserved (carry_out p t (dispatch_to agent) plan)
  unfolding carry_out
  assign-Reserved t plan agent m pass r =
      let after = carry_out p t (dispatch_to agent) plan in
      let one : team_assigns team ready after.actions ≡ _ = assign_one t plan agent m in
      let reserved : running after.in_progress_by_team team ≡ _ =
        reserve_one t plan.in_progress_by_team in
      elim (Bool-cases (of_team team t)) [
        | inl ours ↦
            let below = below_limit t plan agent pass ours in
            let unit : one_if (of_team team t) ≡ 1 = rw ours refl in
            record { counts = omega (arith, r.counts); within = inr (omega arith) }
        | inr other ↦
            let none_more : one_if (of_team team t) ≡ 0 = rw other refl in
            record { counts = omega (arith, r.counts); within = ground (arith, r.within) }
      ]

  step-Reserved :
      (t : Task) (plan : Plan)
      → Memᴰ t ready
      → Reserved plan
      → Reserved (carry_out p t (decide p plan t) plan)
  unfolding carry_out
  step-Reserved t plan m r =
      carry_out_keeps Reserved p plan t
        (λ a other.
          let same_assigns = assign_other a plan other in
          record { counts = omega (arith, r.counts); within = rw same_assigns r.within })
        (λ agent pass. assign-Reserved t plan agent m pass r) r

  start-Reserved : Reserved (initial_plan p)
  unfolding initial_plan team_assigns lookup
  start-Reserved = record {
    counts = running_by_team-count team p.in_progress_tasks [] ∙ omega arith;
    within = inl refl;
  }

-- If the poll is no dry run, the ready tasks have distinct identifiers and a team is configured with a limit, a
-- poll that assigns a task of the team keeps the tasks of the team that are in progress and those that it
-- assigns, together, within the limit.
pub build_dispatch_actions_team :
    (p : Poll) (ready : List Task) (team : String) (d : TeamDispatch) (limit : ℕ)
    → NoDup (task_ids ready)
    → p.dry_run ≡ false
    → lookup team (team_config_map p.teams []) ≡ some d
    → d.max_concurrent ≡ some limit
    → (team_assigns team ready (build_dispatch_actions p ready) ≡ 0)
      ⊎ (team_count team p.in_progress_tasks
            + team_assigns team ready (build_dispatch_actions p ready)
          ≤ limit)
unfolding build_dispatch_actions
build_dispatch_actions_team p ready team d limit distinct active configured limited =
    let plan = plan_each p ready (initial_plan p) in
    let r : Reserved p ready team d limit distinct active configured limited plan =
      plan_each_keeps (Reserved p ready team d limit distinct active configured limited) p ready
        (initial_plan p)
        (λ t q m. step-Reserved p ready team d limit distinct active configured limited t q m)
        (start-Reserved p ready team d limit distinct active configured limited) in
    rw (team_assigns-append team ready plan.actions (block_parents p p.all)) (
      rw (parents_assign_none team p ready p.all) (elim r.within [
        | inl idle ↦ inl (omega arith)
        | inr within ↦ inr (omega (arith, r.counts))
      ]))
