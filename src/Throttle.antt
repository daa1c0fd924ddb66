-- ===== src/Throttle.antt =====
-- src/dispatch/throttle.ts: the limits on dispatches. The module's state is passed along, and the
-- clock is an argument. A time that the source compares by a difference is compared by a sum, which
-- is the same for a clock that may also run backwards.
pub mod Intervals
mod Examples
use aof.Prelude.{
  ℕ, ◌+◌, String, Bool, true, false, ◌&&◌, Option, none, some, Dict, lookup, insert, if◌then◌else◌,
  ◌==◌, ltb, leb, [],
}

pub record ThrottleState : Type 0 where
  pub last_dispatch_at : ℕ
  pub last_dispatch_by_team : Dict ℕ

pub record ThrottleCheckParams : Type 0 where
  pub team : Option String
  pub current_in_progress : ℕ
  pub pending_dispatches : ℕ
  pub max_dispatches : ℕ
  pub team_in_progress : Option ℕ
  pub team_max_concurrent : Option ℕ
  pub min_dispatch_interval_ms : Option ℕ
  pub team_min_interval_ms : Option ℕ
  pub dispatches_this_poll : ℕ
  pub max_dispatches_per_poll : ℕ

-- The result; a refusal names the rule that refused.
pub data ThrottleCheckResult : Type 0 where
  allowed global_concurrency team_concurrency global_interval team_interval poll_limit :
      ThrottleCheckResult

unfoldable pub reset_throttle_state : ThrottleState
reset_throttle_state = record { last_dispatch_at = 0; last_dispatch_by_team = [] }

-- `params.team && ...`: an empty name is no team.
abbrev pub named : Option String → Option String
named none = none
named (some t) = if t == "" then none else some t

-- Both numbers are given, and the first has reached the second.
abbrev reached : Option ℕ → Option ℕ → Bool
reached (some n) (some limit) = leb limit n
reached _ _ = false

abbrev pub team_full : Option String → Option ℕ → Option ℕ → Bool
team_full none n limit = false
team_full (some t) n limit = reached n limit

-- A dispatch was made, and less than the interval ago.
abbrev pub too_soon : ℕ → ℕ → Option ℕ → Bool
too_soon now last none = false
too_soon now last (some interval) = ltb 0 interval && (ltb 0 last && ltb now (last + interval))

-- `lastDispatchByTeam.get(team) ?? 0`
abbrev pub last_of : ThrottleState → String → ℕ
last_of s t = elim (lookup t s.last_dispatch_by_team) [ none ↦ 0 | some n ↦ n ]

abbrev pub team_too_soon : ℕ → ThrottleState → Option String → Option ℕ → Bool
team_too_soon now s none interval = false
team_too_soon now s (some t) interval = too_soon now (last_of s t) interval

unfoldable pub check_throttle : ℕ → ThrottleState → ThrottleCheckParams → ThrottleCheckResult
check_throttle now s p =
    if leb p.max_dispatches (p.current_in_progress + p.pending_dispatches)
    then global_concurrency
    else if team_full (named p.team) p.team_in_progress p.team_max_concurrent
    then team_concurrency
    else if too_soon now s.last_dispatch_at p.min_dispatch_interval_ms
    then global_interval
    else if team_too_soon now s (named p.team) p.team_min_interval_ms
    then team_interval
    else if leb p.max_dispatches_per_poll p.dispatches_this_poll
    then poll_limit
    else allowed

abbrev pub note_team : ℕ → Option String → Dict ℕ → Dict ℕ
note_team now none m = m
note_team now (some t) m = insert t now m

unfoldable pub update_throttle_state : ℕ → Option String → ThrottleState → ThrottleState
update_throttle_state now team s = record {
  last_dispatch_at = now;
  last_dispatch_by_team = note_team now (named team) s.last_dispatch_by_team;
}
