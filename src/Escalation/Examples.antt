-- ===== src/Escalation/Examples.antt =====
-- Examples of timeouts: the hop `review` may take an hour, and then goes to the lead.
use aof.Prelude.{ℕ, String, false, none, some, List, [], ◌∷◌, lookup, ◌≡◌, refl, true}
use aof.Tasks.Sample.{task}
use aof.Tasks.Schema.{in_progress}
use aof.Workflow.Schema.{Hop, HopState, HopStatus, WorkflowStatus, dispatched}
use aof.Dag.Sample.{hop}
use aof.Dag.Cascade.{find_hop}
use aof.Escalation.Timeouts.{
  DagTask, Config, SpawnResult, spawned, refused, escalate_hop_timeout, already_escalated,
  escalated_to,
}
use aof.Escalation.Dispatch.{dispatch_hop}
use aof.Escalation.Once.{Once, run_checks, run_checks-Once}
use aof.Escalation.Retry.{retry_loses_escalation}

abbrev review : Hop
review = record (hop "review" []) { timeout = some "1h"; escalate_to = some "swe-lead" }

abbrev reviewing : HopState
reviewing = record {
  status = dispatched;
  started_at = some 1000;
  completed_at = none;
  agent = some "swe";
  correlation_id = some "s-1";
  result = none;
  rejection_count = none;
  escalated = none;
}

abbrev late_task : DagTask
late_task = record {
  task = task "patch" in_progress none [];
  definition = record { name = "review"; hops = review ∷ [] };
  state = record {
    status = WorkflowStatus.running;
    hops = ("review", reviewing) ∷ [];
    started_at = some 1000;
    completed_at = none;
  };
}

abbrev refusing : Hop → String → SpawnResult
refusing h role = refused

abbrev accepting : Hop → String → SpawnResult
accepting h role = spawned (some "s-2")

abbrev polls : List (Config × ℕ)
polls =
    (record { dry_run = false; executor = some accepting }, 3700000)
    ∷ (record { dry_run = false; executor = some accepting }, 9000000)
    ∷ []

run_checks-Once_example :
    Once
      (lookup "review" late_task.state.hops)
      (lookup "review" (run_checks polls late_task).state.hops)
run_checks-Once_example = run_checks-Once "review" polls late_task

retry_loses_escalation_example :
    (t1 : DagTask) × (t2 : DagTask) × (h1 : HopState) × (h2 : HopState) × (escalate_hop_timeout
        (record { dry_run = false; executor = some refusing })
        3700000
        review
        reviewing
        late_task
      ≡ (some (escalated_to "review" "swe-lead"), t1))
    × (lookup "review" t1.state.hops ≡ some h1)
    × (h1 ≡ record reviewing {
      status = HopStatus.ready;
      agent = some "swe-lead";
      started_at = none;
      correlation_id = none;
      escalated = some true;
    })
    × (dispatch_hop accepting 3800000 "review" t1 ≡ (some true, t2))
    × (lookup "review" t2.state.hops ≡ some h2)
    × (h2 ≡ record reviewing {
      status = HopStatus.dispatched;
      agent = some "swe";
      started_at = some 3800000;
      correlation_id = some "s-2";
      escalated = some true;
    })
    × (escalate_hop_timeout (record { dry_run = true; executor = none }) 9000000 review h2 t2
        ≡ (some (already_escalated "review"), t2))
unfolding find_hop
retry_loses_escalation_example =
    retry_loses_escalation review "swe-lead" 3700000 3800000 9000000 reviewing (some "s-2")
      late_task refusing accepting (record { dry_run = true; executor = none }) refl refl refl refl
      refl
