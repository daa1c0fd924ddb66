-- ===== src/Throttle/Examples.antt =====
-- Examples of the throttle: team "swe" was dispatched at 1000, with an interval of 50, and then "qa".
use aof.Prelude.{none, [], ◌∷◌, lookup, insert, ◌+◌, ◌≤◌, some, ◌≡◌, refl, arith}
use aof.Throttle.{
  ThrottleState, ThrottleCheckParams, allowed, reset_throttle_state, update_throttle_state,
  check_throttle,
}
use aof.Throttle.Intervals.{Dispatches, update_each, check_throttle_spaces_team}

abbrev request : ThrottleCheckParams
request = record {
  team = some "swe";
  current_in_progress = 2;
  pending_dispatches = 1;
  max_dispatches = 4;
  team_in_progress = some 1;
  team_max_concurrent = some 2;
  min_dispatch_interval_ms = some 20;
  team_min_interval_ms = some 50;
  dispatches_this_poll = 0;
  max_dispatches_per_poll = 2;
}

abbrev after_dispatch : ThrottleState
after_dispatch = update_throttle_state 1000 (some "swe") reset_throttle_state

abbrev meanwhile : Dispatches
meanwhile = (1020, some "qa") ∷ (1030, none) ∷ []

late_enough : check_throttle 1060 (update_each meanwhile after_dispatch) request ≡ allowed
unfolding check_throttle update_throttle_state reset_throttle_state lookup insert
late_enough = refl

check_throttle_spaces_team_example : 1000 + 50 ≤ 1060
check_throttle_spaces_team_example =
    check_throttle_spaces_team 1000 1060 50 "swe" meanwhile reset_throttle_state request refl refl
      refl (omega arith) (omega arith) (omega arith, (omega arith, tt)) late_enough
