-- ===== src/Escalation/Dispatch.antt =====
-- src/dispatch/dag-transition-handler.ts, `dispatchDAGHop`, up to the dispatch. What the run does at its
-- end, the directory, the context and the log are left out.
use aof.Prelude.{ℕ, String, Bool, true, false, Option, none, some, lookup}
use aof.Workflow.Schema.{Hop, HopState, dispatched}
use aof.Dag.Status.{fresh}
use aof.Dag.Cascade.{find_hop}
use aof.Escalation.Timeouts.{DagTask, SpawnResult, spawned, refused, raised, Checked, save_hop}

-- `{ ...workflow.state.hops[hopId]!, status: "dispatched", startedAt, agent, correlationId }`
abbrev pub dispatched_hop : ℕ → String → Option String → Option HopState → HopState
dispatched_hop now role session h =
    let old : HopState = elim h [ none ↦ fresh dispatched | some s ↦ s ] in
    record old {
      status = dispatched;
      started_at = some now;
      agent = some role;
      correlation_id = session;
    }

unfoldable pub dispatch_hop : (Hop → String → SpawnResult) → ℕ → String → DagTask → Checked Bool
unfolding find_hop save_hop fresh
dispatch_hop spawn now id t = elim (find_hop t.definition id) [
  | none ↦ (some false, t)
  | some hop ↦ elim (spawn hop hop.role) [
    | spawned session ↦ (
      some true,
      save_hop now id (dispatched_hop now hop.role session (lookup id t.state.hops)) t,
    )
    | refused ↦ (some false, t)
    | raised ↦ (none, t)
  ]
]
