-- ===== src/Handler/Completion.antt =====
-- src/dispatch/dag-transition-handler.ts: from the result of a run to the next state of the workflow. The
-- logs are left out. The hops of a state are visited in the order of their list.
use aof.Prelude.{
  ℕ, String, Bool, true, false, not, ◌&&◌, Option, none, some, List, [], ◌∷◌, Dict, if◌then◌else◌,
  ◌==◌,
}
use aof.Prelude.Int.{ℤ}
use aof.Json.{Value, Fields, Items}
use aof.Tasks.Schema.{
  TaskStatus, TaskPriority, TaskRouting, Task, backlog, ready, in_progress, review, cancelled,
  deadletter, critical, high, normal, low,
}
use aof.Workflow.Schema.{Hop, WorkflowState, HopState}
use aof.Dag.Condition.{TaskMeta}
use aof.Dag.Types.{Result, ok, ◌>>=◌, HopEvent, Outcome, DagEvaluationResult}
use aof.Dag.Cascade.{find_hop}
use aof.Dag.Evaluate.{evaluate_dag}
use aof.Escalation.Timeouts.{DagTask, is_dispatched}

pub data CompletionOutcome : Type 0 where
  done blocked needs_review partial : CompletionOutcome

-- The fields of a run result that the handler reads.
pub record RunResult : Type 0 where
  pub outcome : CompletionOutcome
  pub notes : String

pub record DagHopCompletionResult : Type 0 where
  pub ready_hops : List String
  pub dag_complete : Bool
  pub review_required : Bool

unfoldable pub find_dispatched_hop : Dict HopState → Option String
find_dispatched_hop [] = none
find_dispatched_hop ((id, h) ∷ hops) =
    let rest = find_dispatched_hop hops in if is_dispatched h.status then some id else rest

abbrev pub may_reject : Option Hop → Bool
may_reject none = false
may_reject (some hop) = hop.can_reject

unfoldable pub outcome_of : CompletionOutcome → Bool → Outcome
outcome_of done rejects = Outcome.complete
outcome_of needs_review rejects = if rejects then Outcome.rejected else Outcome.complete
outcome_of _ rejects = Outcome.failed

abbrev pub notes_result : String → Option Fields
notes_result notes =
    if notes == "" then none else some (Fields.field "notes" (Value.text notes) Fields.end)

unfoldable pub map_run_result_to_hop_event : RunResult → String → Option Hop → HopEvent
unfolding outcome_of
map_run_result_to_hop_event run id hop = record {
  hop_id = id;
  outcome = outcome_of run.outcome (may_reject hop);
  result = notes_result run.notes;
}

unfoldable pub task_status_text : TaskStatus → String
task_status_text backlog = "backlog"
task_status_text ready = "ready"
task_status_text in_progress = "in-progress"
task_status_text TaskStatus.blocked = "blocked"
task_status_text review = "review"
task_status_text TaskStatus.done = "done"
task_status_text cancelled = "cancelled"
task_status_text deadletter = "deadletter"

unfoldable pub priority_text : TaskPriority → String
priority_text critical = "critical"
priority_text high = "high"
priority_text normal = "normal"
priority_text low = "low"

abbrev tag_items : List String → Items
tag_items [] = Items.nil
tag_items (t ∷ ts) = Items.cons (Value.text t) (tag_items ts)

-- A field that is absent if it is not set.
abbrev text_field : String → Option String → Fields → Fields
text_field key none rest = rest
text_field key (some v) rest = Fields.field key (Value.text v) rest

abbrev routing_fields : TaskRouting → Fields
routing_fields r = text_field "role" r.role (
    text_field "team" r.team (
      text_field "agent" r.agent (
        Fields.field "tags" (Value.arr (tag_items r.tags))
          (text_field "workflow" r.workflow Fields.end))))

-- The part of the context that is about the task; the results of the hops are those of the state.
unfoldable pub build_eval_context : Task → TaskMeta
unfolding task_status_text priority_text
build_eval_context t = record {
  status = task_status_text t.status;
  tags = t.routing.tags;
  priority = priority_text t.priority;
  routing = routing_fields t.routing;
}

unfoldable pub persist_workflow_state : ℕ → WorkflowState → DagTask → DagTask
persist_workflow_state now state t = record {
  task = record t.task { updated_at = now };
  definition = t.definition;
  state = state;
}

abbrev is_some {ℓ} : {A : Type ℓ} → Option A → Bool
is_some none = false
is_some (some _) = true

abbrev is_complete : Outcome → Bool
is_complete Outcome.complete = true
is_complete _ = false

-- Whether a review is due, `!hopDef.autoAdvance`.
abbrev waits_for_review : Option Hop → Bool
waits_for_review none = false
waits_for_review (some hop) = not hop.auto_advance

abbrev nothing_dispatched : DagHopCompletionResult
nothing_dispatched = record { ready_hops = []; dag_complete = false; review_required = false }

abbrev pub answer_of : HopEvent → Option Hop → DagEvaluationResult → DagHopCompletionResult
answer_of event hop r = record {
  ready_hops = r.ready_hops;
  dag_complete = is_some r.task_status;
  review_required = is_complete event.outcome && waits_for_review hop;
}

unfoldable pub handle_dag_hop_completion :
    (Value → Option ℤ) → ℕ → RunResult → DagTask → Result (DagHopCompletionResult × DagTask)
unfolding find_dispatched_hop find_hop map_run_result_to_hop_event build_eval_context evaluate_dag
    persist_workflow_state
handle_dag_hop_completion to_number now run t = elim (find_dispatched_hop t.state.hops) [
  | none ↦ ok (nothing_dispatched, t)
  | some id ↦
      let hop = find_hop t.definition id in
      let event = map_run_result_to_hop_event run id hop in
      evaluate_dag to_number t.definition (build_eval_context t.task) now t.state event >>= λ r.
      ok (answer_of event hop r, persist_workflow_state now r.state t)
]
