-- ===== src/Scheduler/Dispatch/Capacity.antt =====
-- With room for all, no ready task that nothing holds back is left.
use aof.Prelude.{
  ℕ, suc, ◌+◌, ◌≤◌, String, false, Option, none, some, List, [], ◌∷◌, ◌≡◌, refl, subst, arith,
  length, lookup, Option-cases, inl, inr,
}
use mathlib.Core.List.{Memᴰ}
use mathlib.Core.List.Memᴰ
use aof.Tasks.Schema.{Task}
use aof.Throttle.{allowed, named, check_throttle}
use aof.Scheduler.{SchedulerAction}
use aof.Scheduler.Limits.{
  Poll, Plan, max_dispatches_of, per_poll, throttle_params, target_agent, team_config_map,
}
use aof.Scheduler.Dispatch.{
  Decision, dispatch_to, gate, route, after_throttle, decide, assignment, carry_out, is_halt,
  plan_each, initial_plan, block_parents, build_dispatch_actions,
}
use aof.Scheduler.Dispatch.Steps.{carry_out_keeps, plan_each_keeps}

-- What is planned stays planned.
step_grows :
    (p : Poll) (a : SchedulerAction) (t : Task) (plan : Plan)
    → Memᴰ a plan.actions
    → Memᴰ a (carry_out p t (decide p plan t) plan).actions
unfolding carry_out
step_grows p a t plan m =
    carry_out_keeps (λ q. Memᴰ a q.actions) p plan t (λ b other. Memᴰ.append_left (b ∷ []) m)
      (λ agent pass. Memᴰ.append_left (assignment t agent ∷ []) m) m

module _ (p : Poll) (chartless : p.teams ≡ [])
    (no_interval : p.min_dispatch_interval_ms ≡ none) where
  -- The loop has room for some more dispatches.
  record Room (more : ℕ) (plan : Plan) : Type 0 where
    slots : p.current_in_progress + plan.pending_dispatches + more ≤ max_dispatches_of p
    polls : plan.dispatches_this_poll + more ≤ per_poll p

  Room-allows :
      (more : ℕ) (plan : Plan) (t : Task)
      → Room (suc more) plan
      → check_throttle p.now p.throttle (throttle_params p plan t) ≡ allowed
  unfolding check_throttle throttle_params team_config_map lookup
  Room-allows more plan t r = elim (Option-cases (named t.routing.team)) [
    | inl none_given ↦ rw (chartless, no_interval, none_given) (ground (arith, r.slots, r.polls))
    | inr (team, given) ↦ rw (chartless, no_interval, given) (ground (arith, r.slots, r.polls))
  ]

  Room-step :
      (more : ℕ) (plan : Plan) (t : Task)
      → Room (suc more) plan
      → Room more (carry_out p t (decide p plan t) plan)
  unfolding carry_out
  Room-step more plan t r =
      carry_out_keeps (Room more) p plan t
        (λ a other. record { slots = omega (arith, r.slots); polls = omega (arith, r.polls) })
        (λ agent passes. record { slots = omega (arith, r.slots); polls = omega (arith, r.polls) })
        (record { slots = omega (arith, r.slots); polls = omega (arith, r.polls) })

  route_goes : (t : Task) (o : Option String) → is_halt (route t o) ≡ false
  route_goes t none = refl
  route_goes t (some agent) = refl

  gate_goes : (t : Task) (d : Decision) → gate p t ≡ some d → is_halt d ≡ false
  unfolding gate
  gate_goes t d h = ground arith

  goes_on :
      (more : ℕ) (plan : Plan) (t : Task) → Room (suc more) plan → is_halt (decide p plan t) ≡ false
  unfolding decide after_throttle
  goes_on more plan t r = elim (Option-cases (gate p t)) [
    | inl free ↦
        rw (decide, free, Room-allows more plan t r) (route_goes t (target_agent p.teams t.routing))
    | inr (d, shut) ↦ rw (decide, shut) (gate_goes t d shut)
  ]

  decide_assigns :
      (more : ℕ) (plan : Plan) (t : Task) (agent : String)
      → Room (suc more) plan
      → gate p t ≡ none
      → target_agent p.teams t.routing ≡ some agent
      → decide p plan t ≡ dispatch_to agent
  unfolding decide after_throttle
  decide_assigns more plan t agent r g e = rw (decide, g, Room-allows more plan t r, e)

  plan_each_assigns :
      (ts : List Task) (plan : Plan) (t : Task) (agent : String)
      → Room (length ts) plan
      → Memᴰ t ts
      → gate p t ≡ none
      → target_agent p.teams t.routing ≡ some agent
      → Memᴰ (assignment t agent) (plan_each p ts plan).actions
  unfolding plan_each carry_out
  plan_each_assigns [] plan t agent r m g e = absurd (Memᴰ.not-nil m)
  plan_each_assigns (u ∷ us) plan t agent r (Memᴰ.tail m) g e =
      rw (plan_each, goes_on (length us) plan u r)
        (plan_each_assigns us _ t agent (Room-step (length us) plan u r) m g e)
  plan_each_assigns (u ∷ us) plan t agent r (Memᴰ.head same) g e =
      rw (plan_each, goes_on (length us) plan u r)
        (plan_each_keeps (λ q. Memᴰ (assignment t agent) q.actions) p us _
          (λ v q listed. step_grows p (assignment t agent) v q)
          (subst (λ v. Memᴰ (assignment t agent) (carry_out p v (decide p plan v) plan).actions)
            same
            (rw (decide_assigns (length us) plan t agent r g e)
              (Memᴰ.append_right plan.actions (Memᴰ.head refl)))))

-- Without an organisation chart and a minimal interval, and where all ready tasks together fit the limits, every
-- ready task that no test before the throttle stops and that has a target is assigned: two tasks that
-- use the same resource too.
pub build_dispatch_actions_assigns :
    (p : Poll) (ready : List Task) (t : Task) (agent : String)
    → p.teams ≡ []
    → p.min_dispatch_interval_ms ≡ none
    → p.current_in_progress + length ready ≤ max_dispatches_of p
    → length ready ≤ per_poll p
    → Memᴰ t ready
    → gate p t ≡ none
    → target_agent p.teams t.routing ≡ some agent
    → Memᴰ (assignment t agent) (build_dispatch_actions p ready)
unfolding build_dispatch_actions initial_plan
build_dispatch_actions_assigns p ready t agent chartless no_interval slots polls m g e =
    let room : Room p chartless no_interval (length ready) (initial_plan p) = record {
      slots = omega arith;
      polls = omega arith;
    } in
    Memᴰ.append_left (block_parents p p.all)
      (plan_each_assigns p chartless no_interval ready (initial_plan p) t agent room m g e)
