-- ===== src/Dag/Examples.antt =====
-- What the evaluator does on the sample workflows, and the theorems at them.
use mathlib.Core.List.{Memᴰ}
use aof.Prelude.{
  ◌⊎◌, ◌+◌, String, true, none, some, [], ◌∷◌, lookup, ◌≡◌, ◌≢◌, refl, arith, All, includes, eq_iff,
  inl, inr, map,
}
use aof.Workflow.Schema.{
  Hop, WorkflowState, WorkflowStatus, HopStatus, pending, ready, dispatched, complete, failed,
  skipped,
}
use aof.Dag.Types.{ok, Outcome, HopEvent, rejected, DagEvaluationResult}
use aof.Dag.Status.{status_of}
use aof.Dag.Log.{Explains}
use aof.Dag.Run.Frame.{Moved}
use aof.Dag.Normal.Trace.{evaluate_dag_returns, evaluate_dag-Moved}
use aof.Dag.Normal.Joined.{JoinHolds, ready_hops_sound, pending_join_fails}
use aof.Dag.Verdict.{Verdict, evaluate_dag-Verdict}
use aof.Dag.Cascade.{find_hop}
use aof.Dag.Rejection.{rejections}
use aof.Dag.Rejected.Log.{evaluate_dag-Explains}
use aof.Dag.Rejected.Origin.{origin_state, reject-origin}
use aof.Dag.Rejected.Breaker.{broken_state, reject-breaker}
use aof.Dag.Rejected.Reported.{reject_reports_pending}
use aof.Dag.Blocked.{IsBlocked, evaluate_dag-IsBlocked}
use aof.Dag.Sample.{
  hop, release_plan, join_plan, blank, state_of, join_state, event, no_number, meta, value, step,
  join_step, program,
}

abbrev build_fails : DagEvaluationResult
build_fails =
    value (step (state_of complete dispatched pending pending) (event "build" Outcome.failed))

-- `build` fails: `test` is skipped, and `release` is ready beside a completed `plan`.
build_fails_log :
    map {B = String × HopStatus} (λ c. (c.hop_id, c.to)) build_fails.changes
    ≡ ("build", failed) ∷ ("test", skipped) ∷ ("release", ready) ∷ []
unfolding program
build_fails_log = refl

build_fails_ends :
    step (state_of complete dispatched pending pending) (event "build" Outcome.failed)
    ≡ ok build_fails
unfolding program
build_fails_ends = refl

abbrev before : WorkflowState
before = state_of complete dispatched pending pending

abbrev fail_build : HopEvent
fail_build = event "build" Outcome.failed

evaluate_dag_returns_example : (r : DagEvaluationResult) × (step before fail_build ≡ ok r)
evaluate_dag_returns_example =
    evaluate_dag_returns no_number release_plan meta 7 before fail_build failed refl

evaluate_dag-Moved_example :
    Moved (status_of before.hops "release") (status_of build_fails.state.hops "release")
evaluate_dag-Moved_example =
    evaluate_dag-Moved no_number release_plan meta 7 before fail_build failed build_fails
      (refl, (refl, (refl, (refl, tt)))) refl build_fails_ends "release"
      (ground (arith, eq_iff "release" "build"))

evaluate_dag-Explains_example :
    Explains (status_of before.hops) build_fails.changes build_fails.state.hops
evaluate_dag-Explains_example =
    evaluate_dag-Explains no_number release_plan meta 7 before fail_build build_fails
      (refl, (refl, (refl, (refl, tt)))) build_fails_ends

ready_hops_sound_example :
    (h : Hop) × Memᴰ h release_plan.hops
    × (h.id ≡ "release")
    × (status_of build_fails.state.hops "release" ≡ some ready)
    × (h.depends_on ≢ [])
    × JoinHolds build_fails.state.hops h.join_type h.depends_on
unfolding program
ready_hops_sound_example =
    ready_hops_sound no_number release_plan meta 7 before fail_build failed build_fails refl
      build_fails_ends "release" refl

evaluate_dag-Verdict_example : Verdict before 7 build_fails
evaluate_dag-Verdict_example =
    evaluate_dag-Verdict no_number release_plan meta 7 before fail_build build_fails
      build_fails_ends

-- `plan` completes while `build` runs: `release` goes on waiting.
abbrev running : WorkflowState
running = join_state dispatched dispatched dispatched pending

abbrev plan_done : HopEvent
plan_done = event "plan" Outcome.complete

abbrev plan_completes : DagEvaluationResult
plan_completes = value (join_step running plan_done)

plan_completes_ends : join_step running plan_done ≡ ok plan_completes
unfolding program
plan_completes_ends = refl

abbrev release : Hop
release = hop "release" ("plan" ∷ "build" ∷ [])

pending_join_fails_example :
    ¬ JoinHolds plan_completes.state.hops release.join_type release.depends_on
unfolding program
pending_join_fails_example =
    pending_join_fails no_number join_plan meta 7 running plan_done complete plan_completes refl
      plan_completes_ends release (Memᴰ.tail (Memᴰ.tail (Memᴰ.tail (Memᴰ.head refl)))) refl
      (λ e. cc)

-- `test` is rejected for the first time.
abbrev reject_test : HopEvent
reject_test = event "test" rejected

abbrev in_test : WorkflowState
in_test = state_of complete complete dispatched pending

test_hop : find_hop release_plan "test" ≡ some (hop "test" ("build" ∷ []))
unfolding program
test_hop = refl

All-present : All (λ g. lookup g.id in_test.hops ≢ none) release_plan.hops
unfolding program
All-present = ((λ e. cc), ((λ e. cc), ((λ e. cc), ((λ e. cc), tt))))

reject-origin_example :
    (r : DagEvaluationResult) × (step in_test reject_test ≡ ok r)
    × All
        (λ g.
          lookup g.id r.state.hops
          ≡ some (origin_state "test" (rejections in_test.hops "test" + 1) g))
        release_plan.hops
reject-origin_example =
    reject-origin no_number release_plan meta 7 in_test reject_test (hop "test" ("build" ∷ [])) refl
      (refl, (refl, (refl, (refl, tt)))) All-present test_hop refl (unfold program in omega arith)

-- `build` is rejected for the third time.
abbrev reject_build : HopEvent
reject_build = event "build" rejected

abbrev twice_rejected : WorkflowState
twice_rejected = record {
  status = WorkflowStatus.running;
  hops =
      ("plan", blank complete)
      ∷ (
        "build",
        record {
          status = dispatched;
          started_at = none;
          completed_at = none;
          agent = none;
          correlation_id = none;
          result = none;
          rejection_count = some 2;
          escalated = none;
        },
      )
      ∷ ("test", blank pending)
      ∷ ("release", blank pending)
      ∷ [];
  started_at = none;
  completed_at = none;
}

reject-breaker_example :
    (r : DagEvaluationResult) × (step twice_rejected reject_build ≡ ok r)
    × (lookup "build" r.state.hops
        ≡ some (
            broken_state 7
              (rejections twice_rejected.hops "build" + 1)
              (lookup "build" twice_rejected.hops)))
reject-breaker_example =
    reject-breaker no_number release_plan meta 7 twice_rejected reject_build refl
      (unfold program in omega arith)

abbrev build_broken : DagEvaluationResult
build_broken = value (step twice_rejected reject_build)

build_broken_ends : step twice_rejected reject_build ≡ ok build_broken
unfolding program
build_broken_ends = refl

-- `release` is reported as ready, and stored as pending.
reject_reports_pending_example :
    ((status_of build_broken.state.hops "release" ≡ some pending)
      × (includes "release" build_broken.ready_hops ≡ true))
    ⊎ (status_of build_broken.state.hops "release" ≡ some skipped)
unfolding program
reject_reports_pending_example =
    reject_reports_pending no_number release_plan meta 7 twice_rejected reject_build build_broken
      (hop "release" ("plan" ∷ "test" ∷ [])) refl (unfold program in omega arith) build_broken_ends
      (Memᴰ.tail (Memᴰ.tail (Memᴰ.tail (Memᴰ.head refl))))
      (λ e. let same_text = (eq_iff "release" "build").1 e in ground arith) refl (λ e. cc)
      (inl refl, (inr refl, tt))

-- `build` has failed beside a completed `plan`, and `docs` ends.
abbrev half_failed : WorkflowState
half_failed = join_state complete failed dispatched pending

abbrev docs_done : HopEvent
docs_done = event "docs" Outcome.complete

abbrev docs_complete : DagEvaluationResult
docs_complete = value (join_step half_failed docs_done)

docs_complete_ends : join_step half_failed docs_done ≡ ok docs_complete
unfolding program
docs_complete_ends = refl

half_failed-IsBlocked : IsBlocked join_plan release "build" "plan" half_failed.hops
unfolding program
half_failed-IsBlocked = record {
  listed = Memᴰ.tail (Memᴰ.tail (Memᴰ.tail (Memᴰ.head refl)));
  joins_all = refl;
  unconditional = refl;
  needs_bad = Memᴰ.tail (Memᴰ.head refl);
  needs_good = Memᴰ.head refl;
  waits = refl;
  bad_failed = refl;
  good_complete = refl;
}

evaluate_dag-IsBlocked_example :
    IsBlocked join_plan release "build" "plan" docs_complete.state.hops
    × (docs_complete.dag_status ≡ none)
evaluate_dag-IsBlocked_example =
    evaluate_dag-IsBlocked no_number join_plan meta 7 half_failed docs_done complete docs_complete
      release "build" "plan" (refl, (refl, (refl, (refl, tt)))) refl docs_complete_ends
      half_failed-IsBlocked (ground (arith, eq_iff "release" "docs"))
      (ground (arith, eq_iff "build" "docs")) (ground (arith, eq_iff "plan" "docs"))
