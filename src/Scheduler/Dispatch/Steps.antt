-- ===== src/Scheduler/Dispatch/Steps.antt =====
-- What the loop can do with a task, and induction on the loop.
use aof.Prelude.{
  String, Bool, true, false, Option, none, some, List, [], ◌∷◌, ◌≡◌, refl, arith, if◌then◌else◌,
  Bool-cases, Option-cases, inl, inr,
}
use mathlib.Core.List.{Memᴰ}
use aof.Tasks.Schema.{Task}
use aof.Throttle.{
  ThrottleCheckResult, allowed, global_concurrency, team_concurrency, global_interval,
  team_interval, poll_limit, check_throttle,
}
use aof.Scheduler.{ActionType, assign, SchedulerAction}
use aof.Scheduler.Limits.{Poll, Plan, throttle_params, target_agent}
use aof.Scheduler.Dispatch.{
  Decision, pass, halt, push, dispatch_to, gate, route, unrouted, after_throttle, decide, carry_out,
  is_halt, plan_each,
}

abbrev pub is_assign : ActionType → Bool
is_assign assign = true
is_assign _ = false

-- What an assignment has been through.
pub record Passes (p : Poll) (plan : Plan) (t : Task) (agent : String) : Type 0 where
  pub open_gate : gate p t ≡ none
  pub fits : check_throttle p.now p.throttle (throttle_params p plan t) ≡ allowed
  pub targeted : target_agent p.teams t.routing ≡ some agent

-- A decision that assigns only what passes.
abbrev Sound : Poll → Plan → Task → Decision → Type 0
Sound p plan t pass = Unit
Sound p plan t halt = Unit
Sound p plan t (push a) = is_assign a.type ≡ false
Sound p plan t (dispatch_to agent) = Passes p plan t agent

gate-Sound :
    (p : Poll) (plan : Plan) (t : Task) (d : Decision) → gate p t ≡ some d → Sound p plan t d
unfolding gate
gate-Sound p plan t pass h = tt
gate-Sound p plan t halt h = tt
gate-Sound p plan t (push a) h = ground arith
gate-Sound p plan t (dispatch_to agent) h = ground arith

unrouted_assigns_none : (t : Task) (tags : List String) → is_assign (unrouted t tags).type ≡ false
unrouted_assigns_none t [] = refl
unrouted_assigns_none t (tag ∷ tags) = refl

route-Sound :
    (p : Poll) (plan : Plan) (t : Task)
    → gate p t ≡ none
    → check_throttle p.now p.throttle (throttle_params p plan t) ≡ allowed
    → (o : Option String) → target_agent p.teams t.routing ≡ o
    → Sound p plan t (route t o)
route-Sound p plan t g f none h = unrouted_assigns_none t t.routing.tags
route-Sound p plan t g f (some agent) h = record { open_gate = g; fits = f; targeted = h }

refused-Sound :
    (p : Poll) (plan : Plan) (t : Task) (b : Bool) → Sound p plan t (if b then halt else pass)
refused-Sound p plan t true = tt
refused-Sound p plan t false = tt

after_throttle-Sound :
    (p : Poll) (plan : Plan) (t : Task)
    → gate p t ≡ none
    → (r : ThrottleCheckResult) → check_throttle p.now p.throttle (throttle_params p plan t) ≡ r
    → Sound p plan t (after_throttle p t r)
unfolding after_throttle
after_throttle-Sound p plan t g allowed h =
    route-Sound p plan t g h (target_agent p.teams t.routing) refl
after_throttle-Sound p plan t g global_concurrency h = refused-Sound p plan t _
after_throttle-Sound p plan t g team_concurrency h = refused-Sound p plan t _
after_throttle-Sound p plan t g global_interval h = refused-Sound p plan t _
after_throttle-Sound p plan t g team_interval h = refused-Sound p plan t _
after_throttle-Sound p plan t g poll_limit h = refused-Sound p plan t _

decide-Sound : (p : Poll) (plan : Plan) (t : Task) → Sound p plan t (decide p plan t)
unfolding decide
decide-Sound p plan t = elim (Option-cases (gate p t)) [
  | inl passes ↦ rw (decide, passes) (after_throttle-Sound p plan t passes _ refl)
  | inr (d, shut) ↦ rw (decide, shut) (gate-Sound p plan t d shut)
]

-- A property of plans is kept by a step, if it is kept by an action that assigns nothing, and by an
-- assignment that passes.
pub carry_out_keeps {ℓ} :
    (P : Plan → Type ℓ) (p : Poll) (plan : Plan) (t : Task)
    → ((a : SchedulerAction) → is_assign a.type ≡ false → P (carry_out p t (push a) plan))
    → ((agent : String) → Passes p plan t agent → P (carry_out p t (dispatch_to agent) plan))
    → P plan
    → P (carry_out p t (decide p plan t) plan)
unfolding carry_out
carry_out_keeps P p plan t pushes assigns h = kept (decide p plan t) (decide-Sound p plan t)
  where
    kept : (d : Decision) → Sound p plan t d → P (carry_out p t d plan)
    kept pass s = h
    kept halt s = h
    kept (push a) s = pushes a s
    kept (dispatch_to agent) s = assigns agent s

-- A property of plans that every step on a listed task keeps holds at the end of the loop.
pub plan_each_keeps {ℓ} :
    (P : Plan → Type ℓ) (p : Poll) (ts : List Task) (plan : Plan)
    → ((t : Task) (q : Plan) → Memᴰ t ts → P q → P (carry_out p t (decide p q t) q))
    → P plan
    → P (plan_each p ts plan)
unfolding plan_each
plan_each_keeps P p [] plan step h = h
plan_each_keeps P p (t ∷ ts) plan step h =
    let next = step t plan (Memᴰ.head refl) h in
    elim (Bool-cases (is_halt (decide p plan t))) [
      | inl ends ↦ rw (plan_each, ends) h
      | inr goes ↦
          rw (plan_each, goes) (plan_each_keeps P p ts _ (λ u q m. step u q (Memᴰ.tail m)) next)
    ]
