-- ===== src/Scheduler/Dispatch/Bounds.antt =====
-- How many assignments a poll plans.
use aof.Prelude.{
  ℕ, suc, ◌+◌, ◌≤◌, List, [], ◌∷◌, ◌++◌, ◌≡◌, refl, arith, if◌then◌else◌, Bool-cases, inl, inr, ◌⊎◌,
}
use aof.Tasks.Schema.{Task}
use aof.Throttle.Intervals.{check_throttle-bounds}
use aof.Scheduler.{SchedulerAction}
use aof.Scheduler.Limits.{Poll, Plan, max_dispatches_of, per_poll, throttle_params}
use aof.Scheduler.Dispatch.{
  decide, carry_out, plan_each, block_parents, blocks_parent, initial_plan, build_dispatch_actions,
}
use aof.Scheduler.Dispatch.Steps.{is_assign, Passes, carry_out_keeps, plan_each_keeps}

-- The number of assignments among the actions.
unfoldable pub assign_count : List SchedulerAction → ℕ
assign_count [] = 0
assign_count (a ∷ actions) =
    let rest = assign_count actions in if is_assign a.type then suc rest else rest

pub assign_count-append :
    (xs ys : List SchedulerAction) → assign_count (xs ++ ys) ≡ assign_count xs + assign_count ys
unfolding assign_count
assign_count-append [] ys = omega arith
assign_count-append (x ∷ xs) ys = ground (arith, assign_count-append xs ys)

block_parents_assign_none : (p : Poll) (ts : List Task) → assign_count (block_parents p ts) ≡ 0
unfolding block_parents assign_count
block_parents_assign_none p [] = refl
block_parents_assign_none p (t ∷ ts) = elim (Bool-cases (blocks_parent p t)) [
  | inl b ↦ rw (block_parents, b) (block_parents_assign_none p ts)
  | inr b ↦ rw (block_parents, b) (block_parents_assign_none p ts)
]

record Counted (p : Poll) (plan : Plan) : Type 0 where
  counts : assign_count plan.actions ≡ plan.pending_dispatches
  agree : plan.dispatches_this_poll ≡ plan.pending_dispatches
  within : plan.pending_dispatches ≤ per_poll p
  room :
      (plan.pending_dispatches ≡ 0)
      ⊎ (p.current_in_progress + plan.pending_dispatches ≤ max_dispatches_of p)

fits_below :
    (p : Poll) (plan : Plan) (t : Task)
    → (agree : plan.dispatches_this_poll ≡ plan.pending_dispatches) → {agent : _}
    → Passes p plan t agent
    → (suc plan.pending_dispatches ≤ per_poll p)
      × (p.current_in_progress + suc plan.pending_dispatches ≤ max_dispatches_of p)
unfolding throttle_params
fits_below p plan t agree pass =
    let (room, polls) =
      check_throttle-bounds p.now p.throttle (throttle_params p plan t) pass.fits in
    (omega arith, omega arith)

step-Counted :
    (p : Poll) (t : Task) (plan : Plan)
    → Counted p plan
    → Counted p (carry_out p t (decide p plan t) plan)
unfolding carry_out assign_count
step-Counted p t plan c =
    carry_out_keeps (Counted p) p plan t
      (λ a other. record {
        counts = rw assign_count-append (ground (arith, c.counts));
        agree = c.agree;
        within = c.within;
        room = c.room;
      })
      (λ agent pass.
        let (polls, room) = fits_below p plan t c.agree pass in
        record {
          counts = rw assign_count-append (omega (arith, c.counts));
          agree = omega (arith, c.agree);
          within = polls;
          room = inr room;
        })
      c

start-Counted : (p : Poll) → Counted p (initial_plan p)
unfolding initial_plan assign_count
start-Counted p = record { counts = refl; agree = refl; within = omega arith; room = inl refl }

-- A poll plans at most as many assignments as its limit per poll; and if it plans one, the tasks in progress
-- and the planned assignments together are within the limit on concurrent dispatches.
pub build_dispatch_actions_bounds :
    (p : Poll) (ready : List Task)
    → (assign_count (build_dispatch_actions p ready) ≤ per_poll p)
      × ((assign_count (build_dispatch_actions p ready) ≡ 0)
          ⊎ (p.current_in_progress + assign_count (build_dispatch_actions p ready)
              ≤ max_dispatches_of p))
unfolding build_dispatch_actions
build_dispatch_actions_bounds p ready =
    let plan = plan_each p ready (initial_plan p) in
    let c : Counted p plan =
      plan_each_keeps (Counted p) p ready (initial_plan p) (λ t q m. step-Counted p t q)
        (start-Counted p) in
    rw (assign_count-append plan.actions (block_parents p p.all)) (
      rw (block_parents_assign_none p p.all) (
        omega (arith, c.counts, c.within),
        elim c.room [
          | inl idle ↦ inl (omega (arith, c.counts))
          | inr room ↦ inr (omega (arith, c.counts))
        ],
      ))
