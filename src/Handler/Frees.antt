-- ===== src/Handler/Frees.antt =====
-- src/dispatch/dag-transition-handler.ts and src/dispatch/scheduler.ts: the end of a run frees the workflow
-- for the next dispatch.
use aof.Prelude.{
  ℕ, String, Bool, false, Option, none, some, [], lookup, insert, lookup-insert, ne→==_false,
  Option-cases, ◌≡◌, ◌≢◌, refl, sym, ap, ◌∙◌, arith, eq_iff, text-cases, inl, inr,
}
use aof.Prelude.Int.{ℤ}
use aof.Json.{Value}
use aof.Workflow.Schema.{Hop, HopStatus, HopState, dispatched, complete, failed}
use aof.Workflow.Validate.{validate_dag}
use aof.Workflow.Acyclic.Accepted.{validate_dag_sound}
use aof.Dag.Types.{ok, HopEvent}
use aof.Dag.Status.{status_of}
use aof.Dag.Cascade.{find_hop}
use aof.Dag.Run.Frame.{Moved}
use aof.Dag.Run.Joins.{IsUnique}
use aof.Dag.Normal.Trace.{
  outcome_status, event_state, evaluate_dag_returns, evaluate_dag-event_hop, evaluate_dag-Moved,
}
use aof.Escalation.Timeouts.{DagTask, SpawnResult, save_hop}
use aof.Escalation.Dispatch.{dispatch_hop, dispatched_hop}
use aof.Escalation.Once.{spawn_cases}
use aof.Handler.Poll.{next_hop, dispatch_next}
use aof.Handler.Completion.{
  CompletionOutcome, done, needs_review, RunResult, answer_of, DagHopCompletionResult,
  find_dispatched_hop, may_reject, outcome_of, map_run_result_to_hop_event, build_eval_context,
  persist_workflow_state, handle_dag_hop_completion,
}

-- One hop at a time: no hop but `id` is dispatched.
abbrev pub OnlyDispatched : String → DagTask → Type 0
OnlyDispatched id t = (j : String) → j ≢ id → status_of t.state.hops j ≢ some dispatched

abbrev pub NoneDispatched : DagTask → Type 0
NoneDispatched t = (j : String) → status_of t.state.hops j ≢ some dispatched

-- A rejection: the run asks for a review, and the hop may reject.
abbrev pub is_rejection : CompletionOutcome → Bool → Bool
is_rejection needs_review rejects = rejects
is_rejection _ rejects = false

-- The status that a run gives its hop, unless it rejects.
abbrev pub status_for : CompletionOutcome → HopStatus
status_for done = complete
status_for needs_review = complete
status_for _ = failed

normal_outcome :
    (o : CompletionOutcome) (rejects : Bool)
    → is_rejection o rejects ≡ false
    → outcome_status (outcome_of o rejects) ≡ some (status_for o)
unfolding outcome_of
normal_outcome done rejects h = refl
normal_outcome needs_review rejects h = rw h refl
normal_outcome CompletionOutcome.blocked rejects h = refl
normal_outcome CompletionOutcome.partial rejects h = refl

ended : (o : CompletionOutcome) → some (status_for o) ≢ some dispatched
ended done e = cc
ended needs_review e = cc
ended CompletionOutcome.blocked e = cc
ended CompletionOutcome.partial e = cc

Moved-rests : (a b : Option HopStatus) → Moved a b → a ≢ some dispatched → b ≢ some dispatched
Moved-rests a b (Moved.kept e) rests d = rests (sym e ∙ d)
Moved-rests a b (Moved.moved p (inl e)) rests d = cc
Moved-rests a b (Moved.moved p (inr e)) rests d = cc

event_state_status :
    (now : ℕ) (o : HopStatus) (event : HopEvent) (old : Option HopState)
    → (event_state now o event old).status ≡ o
event_state_status now o event none = refl
event_state_status now o event (some old) = refl

dispatch_hop-OnlyDispatched :
    (spawn : Hop → String → SpawnResult) (now : ℕ) (id : String) (t : DagTask)
    → NoneDispatched t
    → OnlyDispatched id (dispatch_hop spawn now id t).1
unfolding dispatch_hop save_hop status_of
dispatch_hop-OnlyDispatched spawn now id t rests j other =
    elim (Option-cases (find_hop t.definition id)) [
      | inl missing ↦ rw (missing, dispatch_hop) (rests j)
      | inr (hop, found) ↦ elim (spawn_cases (spawn hop hop.role)) [
        | inl (session, s) ↦
            let h = dispatched_hop now hop.role session (lookup id t.state.hops) in
            let same_hop : lookup j (insert id h t.state.hops) ≡ lookup j t.state.hops =
              lookup-insert id j h t.state.hops ∙ rw (ne→==_false id j (λ e. other (sym e))) refl in
            rw (found, dispatch_hop) (rw s (λ d. rests j (rw (sym same_hop, status_of) d)))
        | inr (inl s) ↦ rw (found, dispatch_hop) (rw s (rests j))
        | inr (inr s) ↦ rw (found, dispatch_hop) (rw s (rests j))
      ]
    ]

dispatch_next-OnlyDispatched :
    (spawn : Hop → String → SpawnResult) (now : ℕ) (t : DagTask)
    → NoneDispatched t
    → (id : String) × OnlyDispatched id (dispatch_next spawn now t)
unfolding dispatch_next
dispatch_next-OnlyDispatched spawn now t rests = elim (Option-cases (next_hop t)) [
  | inl none_ready ↦ ("", rw (none_ready, dispatch_next) (λ j other. rests j))
  | inr (id, e) ↦ (id, rw (e, dispatch_next) (dispatch_hop-OnlyDispatched spawn now id t rests))
]

-- When a run ends that is not a rejection, for a workflow that `validateDAG` accepts with one hop
-- dispatched and no other: the handler returns, the hop is complete or failed as the run's outcome says,
-- no hop is dispatched any more, and after the dispatch of the next poll one hop at most is.
pub handle_completion_frees :
    (to_number : Value → Option ℤ) (now later : ℕ) (spawn : Hop → String → SpawnResult)
    (run : RunResult) (t : DagTask) (id : String)
    → validate_dag t.definition ≡ some []
    → find_dispatched_hop t.state.hops ≡ some id
    → OnlyDispatched id t
    → is_rejection run.outcome (may_reject (find_hop t.definition id)) ≡ false
    → (answer : DagHopCompletionResult) × (t' : DagTask) × (handle_dag_hop_completion to_number now
          run t
        ≡ ok (answer, t'))
      × (status_of t'.state.hops id ≡ some (status_for run.outcome))
      × NoneDispatched t'
      × ((next : String) × OnlyDispatched next (dispatch_next spawn later t'))
unfolding handle_dag_hop_completion map_run_result_to_hop_event persist_workflow_state status_of
handle_completion_frees to_number now later spawn run t id accepted found only normal =
    let def = t.definition in
    let hop = find_hop def id in
    let meta = build_eval_context t.task in
    let event = map_run_result_to_hop_event run id hop in
    let o = status_for run.outcome in
    let is_o = normal_outcome run.outcome (may_reject hop) normal in
    let unique : IsUnique def.hops = (validate_dag_sound def accepted).0 in
    let (r, done_eq) = evaluate_dag_returns to_number def meta now t.state event o is_o in
    let here =
      evaluate_dag-event_hop to_number def meta now t.state event o r unique is_o done_eq in
    let status : status_of r.state.hops id ≡ some o =
      rw (here, status_of) (ap some (event_state_status now o event (lookup id t.state.hops))) in
    let frees : NoneDispatched (persist_workflow_state now r.state t) = λ j.
      elim (text-cases j id) [
        | inl same ↦
            λ d. ended run.outcome (sym status ∙ ap (status_of r.state.hops) (sym same) ∙ d)
        | inr other ↦
            let away : j ≢ id = λ e. ground (arith, (eq_iff j id).1 e) in
            Moved-rests _ _
              (evaluate_dag-Moved to_number def meta now t.state event o r unique is_o done_eq j
                away)
              (only j away)
      ] in
    (
      answer_of event hop r,
      persist_workflow_state now r.state t,
      rw (found, handle_dag_hop_completion) (rw done_eq refl),
      status,
      frees,
      dispatch_next-OnlyDispatched spawn later (persist_workflow_state now r.state t) frees,
    )
