-- ===== src/Throttle/Intervals.antt =====
-- What the throttle lets through.
use aof.Prelude.{
  ℕ, ◌+◌, ◌≤◌, ◌<◌, String, false, Option, none, some, List, [], ◌∷◌, lookup, lookup-insert,
  lookup-insert_self, ◌≡◌, refl, ◌∙◌, ap, arith, ◌==◌, ◌⊎◌, inl, inr, Bool-cases, text-cases,
  eq_iff, All,
}
use aof.Throttle.{
  ThrottleState, ThrottleCheckParams, allowed, named, last_of, team_too_soon, check_throttle,
  update_throttle_state,
}

-- An allowed dispatch finds the number of running and starting tasks below its limit, and that of
-- the poll too.
pub check_throttle-bounds :
    (now : ℕ) (s : ThrottleState) (p : ThrottleCheckParams)
    → check_throttle now s p ≡ allowed
    → (p.current_in_progress + p.pending_dispatches < p.max_dispatches)
      × (p.dispatches_this_poll < p.max_dispatches_per_poll)
unfolding check_throttle
check_throttle-bounds now s p h = ground arith

team_passes :
    (now : ℕ) (s : ThrottleState) (p : ThrottleCheckParams)
    → check_throttle now s p ≡ allowed
    → team_too_soon now s (named p.team) p.team_min_interval_ms ≡ false
unfolding check_throttle
team_passes now s p h = ground arith

-- The dispatches that follow one another, each with its time and the team of its task.
abbrev pub Dispatches : Type 0
Dispatches = List (ℕ × Option String)

abbrev pub update_each : Dispatches → ThrottleState → ThrottleState
update_each [] s = s
update_each ((now, team) ∷ ds) s = update_each ds (update_throttle_state now team s)

last_of-update :
    (now : ℕ) (other : Option String) (team : String) (s : ThrottleState)
    → (last_of (update_throttle_state now other s) team ≡ now)
      ⊎ (last_of (update_throttle_state now other s) team ≡ last_of s team)
unfolding update_throttle_state
last_of-update now none team s = inr refl
last_of-update now (some other) team s = elim (Bool-cases (other == "")) [
  | inl empty ↦ inr (rw empty refl)
  | inr named_it ↦ elim (text-cases other team) [
    | inl same ↦
        let at : lookup team (update_throttle_state now (some other) s).last_dispatch_by_team
            ≡ some now =
          rw named_it (
            lookup-insert other team now s.last_dispatch_by_team
            ∙ rw ((eq_iff other team).1 same) refl) in
        inl (ground arith)
    | inr apart ↦
        let at : lookup team (update_throttle_state now (some other) s).last_dispatch_by_team
            ≡ lookup team s.last_dispatch_by_team =
          rw named_it (lookup-insert other team now s.last_dispatch_by_team ∙ rw apart refl) in
        inr (ap (λ (o : Option ℕ). elim o [ none ↦ 0 | some n ↦ n ]) at)
  ]
]

-- Whatever is dispatched later, the time that is kept for a team does not go back.
last_of-update_each :
    (now : ℕ) (team : String) (ds : Dispatches) (s : ThrottleState)
    → now ≤ last_of s team
    → All (λ d. now ≤ d.0) ds
    → now ≤ last_of (update_each ds s) team
last_of-update_each now team [] s from h = from
last_of-update_each now team ((at, other) ∷ ds) s from (later, hs) =
    last_of-update_each now team ds (update_throttle_state at other s)
      (elim (last_of-update at other team s) [ inl new ↦ rw new later | inr old ↦ rw old from ]) hs

noted :
    (now : ℕ) (team : String) (s : ThrottleState)
    → (team == "") ≡ false
    → last_of (update_throttle_state now (some team) s) team ≡ now
unfolding update_throttle_state
noted now team s n =
    let at : lookup team (update_throttle_state now (some team) s).last_dispatch_by_team
        ≡ some now =
      rw n (lookup-insert_self team now s.last_dispatch_by_team) in
    ground arith

-- After a dispatch of a team with a name, at a time that is not 0, and whatever is dispatched from
-- then on, of any teams: no dispatch of the team is allowed before its interval has passed, if the
-- interval is not 0.
pub check_throttle_spaces_team :
    (now later interval : ℕ) (team : String) (ds : Dispatches) (s : ThrottleState)
    (p : ThrottleCheckParams)
    → p.team ≡ some team
    → (team == "") ≡ false
    → p.team_min_interval_ms ≡ some interval
    → 0 < now
    → 0 < interval
    → All (λ d. now ≤ d.0) ds
    → check_throttle later (update_each ds (update_throttle_state now (some team) s)) p ≡ allowed
    → now + interval ≤ later
check_throttle_spaces_team now later interval team ds s p e n i pos_now pos_interval after h =
    let passes = team_passes later (update_each ds (update_throttle_state now (some team) s)) p h in
    let kept : now ≤ last_of (update_each ds (update_throttle_state now (some team) s)) team =
      last_of-update_each now team ds (update_throttle_state now (some team) s)
        (rw (noted now team s n) (omega arith)) after in
    ground arith
