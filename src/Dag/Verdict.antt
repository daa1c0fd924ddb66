-- ===== src/Dag/Verdict.antt =====
-- The DAG-level status of an evaluation, whatever the event.
use mathlib.Core.List.{Memᴰ}
use aof.Prelude.{
  ℕ, String, Bool, true, false, Option, none, some, List, [], ◌∷◌, Dict, ◌≡◌, refl, arith, subst,
  All, Bool-cases, every, any_of, ◌⊎◌, inl, inr,
}
use aof.Prelude.Int.{ℤ}
use aof.Json.{Value}
use aof.Workflow.Schema.{
  WorkflowDefinition, WorkflowState, WorkflowStatus, HopStatus, complete, failed, skipped, HopState,
}
use aof.Dag.Condition.{TaskMeta}
use aof.Dag.Types.{
  ok, >>=-eq-ok, ok_eq, HopEvent, Outcome, rejected, task_done, task_failed, Work,
  DagEvaluationResult,
}
use aof.Dag.Status.{is_terminal}
use aof.Dag.Completion.{is_failed, statuses, check_dag_completion, finish}
use aof.Dag.Rejection.{reject_hop}
use aof.Dag.Evaluate.{
  apply_event, cascade_event, cascade_fuel, evaluate_normal, dispatch_outcome, evaluate_dag,
}

abbrev pub IsDone : String × HopState → Type 0
IsDone (id, h) = (h.status ≡ complete) ⊎ (h.status ≡ skipped)

abbrev pub IsOver : String × HopState → Type 0
IsOver (id, h) = (h.status ≡ complete) ⊎ (h.status ≡ skipped) ⊎ (h.status ≡ failed)

-- Success: every hop is complete or skipped. Failure: every hop is over and one has failed. Else
-- the workflow goes on, with its status and completion time as they were.
pub data Verdict (before : WorkflowState) (timestamp : ℕ) (r : DagEvaluationResult) : Type 0 where
  succeeded :
      All IsDone r.state.hops
      → r.dag_status ≡ some WorkflowStatus.complete
      → r.state.status ≡ WorkflowStatus.complete
      → r.state.completed_at ≡ some timestamp
      → r.task_status ≡ some task_done
      → Verdict before timestamp r
  broken :
      (entry : String × HopState)
      → All IsOver r.state.hops
      → Memᴰ entry r.state.hops
      → entry.1.status ≡ failed
      → r.dag_status ≡ some WorkflowStatus.failed
      → r.state.status ≡ WorkflowStatus.failed
      → r.state.completed_at ≡ some timestamp
      → r.task_status ≡ some task_failed
      → Verdict before timestamp r
  open_still :
      (entry : String × HopState)
      → Memᴰ entry r.state.hops
      → ¬ IsOver entry
      → r.dag_status ≡ none
      → r.state.status ≡ before.status
      → r.state.completed_at ≡ before.completed_at
      → r.task_status ≡ none
      → Verdict before timestamp r

abbrev terminal : HopStatus → Bool
terminal s = is_terminal (some s)

All-IsOver : (hops : Dict HopState) → every terminal (statuses hops) ≡ true → All IsOver hops
All-IsOver [] h = tt
All-IsOver ((id, s) ∷ hops) h = (ground arith, All-IsOver hops (ground arith))

one_open :
    (hops : Dict HopState)
    → every terminal (statuses hops) ≡ false
    → (entry : String × HopState) × Memᴰ entry hops × ¬ IsOver entry
one_open [] h = cc
one_open ((id, s) ∷ hops) h = elim (Bool-cases (terminal s.status)) [
  | inl e ↦ let (entry, m, n) = one_open hops (ground arith) in (entry, Memᴰ.tail m, n)
  | inr e ↦ ((id, s), Memᴰ.head refl, λ over. ground arith)
]

one_failed :
    (hops : Dict HopState)
    → any_of is_failed (statuses hops) ≡ true
    → (entry : String × HopState) × Memᴰ entry hops × (entry.1.status ≡ failed)
one_failed [] h = cc
one_failed ((id, s) ∷ hops) h = elim (Bool-cases (is_failed s.status)) [
  | inl e ↦ ((id, s), Memᴰ.head refl, ground arith)
  | inr e ↦ let (entry, m, f) = one_failed hops (ground arith) in (entry, Memᴰ.tail m, f)
]

none_failed :
    (hops : Dict HopState)
    → any_of is_failed (statuses hops) ≡ false
    → All IsOver hops
    → All IsDone hops
none_failed [] h over = tt
none_failed ((id, s) ∷ hops) h over = (ground arith, none_failed hops (ground arith) over.1)

finish-Verdict :
    (state : WorkflowState) (t : ℕ) (ids : List String) (w : Work)
    → Verdict state t (finish state t ids w)
unfolding finish check_dag_completion
finish-Verdict state t ids w = elim (Bool-cases (every terminal (statuses w.hops))) [
  | inr e ↦ let (entry, m, n) = one_open w.hops e in rw e (open_still entry m n refl refl refl refl)
  | inl e ↦ elim (Bool-cases (any_of is_failed (statuses w.hops))) [
    | inl f ↦
        let (entry, m, d) = one_failed w.hops f in
        rw (e, f) (broken entry (All-IsOver w.hops e) m d refl refl refl refl)
    | inr f ↦ rw (e, f) (succeeded (none_failed w.hops f (All-IsOver w.hops e)) refl refl refl refl)
  ]
]

module _ (to_number : Value → Option ℤ) (def : WorkflowDefinition) (task : TaskMeta) (timestamp : ℕ)
    (state : WorkflowState) (event : HopEvent) (r : DagEvaluationResult) where
  Finishes : Type 0
  Finishes = (ids : List String) × (w : Work) × (finish state timestamp ids w ≡ r)

  normal_finishes :
      (o : HopStatus) → evaluate_normal to_number def task timestamp state o event ≡ ok r → Finishes
  unfolding evaluate_normal Finishes
  normal_finishes o h =
      let (w, _, e) =
        >>=-eq-ok
          (cascade_event to_number def task timestamp o event.hop_id
            (apply_event timestamp o event (record { hops = state.hops; changes = [] })))
          _ h in
      (_, _, ok_eq e)

  finishes :
      (x : Outcome) → dispatch_outcome to_number def task timestamp x state event ≡ ok r → Finishes
  unfolding dispatch_outcome Finishes
  finishes Outcome.complete h = normal_finishes complete h
  finishes Outcome.failed h = normal_finishes failed h
  finishes Outcome.skipped h = normal_finishes skipped h
  finishes rejected h =
      let (w, _, e) =
        >>=-eq-ok
          (reject_hop def timestamp (cascade_fuel state.hops) event.hop_id
            (record { hops = state.hops; changes = [] }))
          _ h in
      (_, _, ok_eq e)

  -- After any event, rejections included, the DAG-level status, the workflow's status and
  -- completion time and the suggested task status are those that the hops of the new state call
  -- for.
  pub evaluate_dag-Verdict :
      evaluate_dag to_number def task timestamp state event ≡ ok r → Verdict state timestamp r
  unfolding evaluate_dag Finishes
  evaluate_dag-Verdict h =
      let (ids, w, e) = finishes event.outcome h in
      subst (Verdict state timestamp) e (finish-Verdict state timestamp ids w)
