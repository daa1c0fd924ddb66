-- ===== src/Handler/Poll.antt =====
-- src/dispatch/scheduler.ts: the dispatch of ready hops in a poll. A task is read again before its hop is
-- dispatched; nothing runs in between here, so what is read is the task of the listing. An exception of a
-- dispatch is caught.
use aof.Prelude.{ℕ, String, Option, none, some, List, [], ◌∷◌, Dict, if◌then◌else◌}
use aof.Tasks.Schema.{in_progress, same}
use aof.Workflow.Schema.{Hop, HopState}
use aof.Dag.Status.{is_ready}
use aof.Escalation.Timeouts.{DagTask, SpawnResult}
use aof.Escalation.Dispatch.{dispatch_hop}
use aof.Handler.Completion.{find_dispatched_hop}

unfoldable pub find_ready_hop : Dict HopState → Option String
find_ready_hop [] = none
find_ready_hop ((id, h) ∷ hops) =
    let rest = find_ready_hop hops in if is_ready (some h.status) then some id else rest

-- The first ready hop, if no hop of the task is dispatched.
unfoldable pub next_hop : DagTask → Option String
unfolding find_dispatched_hop find_ready_hop
next_hop t = elim (find_dispatched_hop t.state.hops) [
  | some running ↦ none
  | none ↦ find_ready_hop t.state.hops
]

unfoldable pub dispatch_next : (Hop → String → SpawnResult) → ℕ → DagTask → DagTask
unfolding next_hop dispatch_hop
dispatch_next spawn now t = elim (next_hop t) [
  | none ↦ t
  | some id ↦ (dispatch_hop spawn now id t).1
]

-- The tasks that carry a workflow.
unfoldable pub dispatch_ready_hops : (Hop → String → SpawnResult) → ℕ → List DagTask → List DagTask
unfolding dispatch_next
dispatch_ready_hops spawn now [] = []
dispatch_ready_hops spawn now (t ∷ ts) =
    let rest = dispatch_ready_hops spawn now ts in
    if same t.task.status in_progress then dispatch_next spawn now t ∷ rest else t ∷ rest
