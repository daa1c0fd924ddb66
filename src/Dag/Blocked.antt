-- ===== src/Dag/Blocked.antt =====
-- A hop between a failed and a completed predecessor.
use mathlib.Core.List.{Memᴰ}
use mathlib.Core.Bool.{true≢false}
use aof.Prelude.{
  ℕ, String, true, false, Option, none, some, List, [], ◌∷◌, Dict, lookup, ◌≡◌, ◌≢◌, sym, ◌∙◌, ap,
  arith, subst, ◌==◌, includes, inl, inr, eq_iff, some_eq, every-false, find-passes, mem_of_lookup,
  All-get, text-cases, Option-cases,
}
use aof.Prelude.Int.{ℤ}
use aof.Json.{Value}
use aof.Workflow.Schema.{
  Hop, WorkflowDefinition, WorkflowState, HopStatus, pending, complete, failed, HopState, all,
}
use aof.Dag.Condition.{TaskMeta}
use aof.Dag.Types.{ok, Work, HopEvent, DagEvaluationResult}
use aof.Dag.Status.{status_of, is_non_success, is_satisfied, write, status_of-insert}
use aof.Dag.Cascade.{find_hop, all_non_success, skip}
use aof.Dag.Ready.{join_satisfied}
use aof.Dag.Evaluate.{evaluate_dag}
use aof.Dag.Run.Steps.{Setting, Step, Run, cascade, condition, join, here, next}
use aof.Dag.Run.Frame.{Run-frame}
use aof.Dag.Run.Joins.{IsUnique, hop_ids}
use aof.Dag.Normal.Settled.{after_event}
use aof.Dag.Normal.Trace.{outcome_status, run, status-after_event_ne}
use aof.Dag.Verdict.{Verdict, succeeded, broken, open_still, IsDone, IsOver, evaluate_dag-Verdict}

apart :
    (g b : Hop) (hops : List Hop)
    → includes g.id (hop_ids hops) ≡ false
    → g.id ≡ b.id
    → includes b.id (hop_ids hops) ≡ true
    → ⊥
apart g b hops absent same found =
    true≢false (sym found ∙ ap (λ x. includes x (hop_ids hops)) (sym same) ∙ absent)

-- The hop is pending, an AND-join without a condition, and one of its predecessors has failed while
-- another has completed.
pub record IsBlocked (def : WorkflowDefinition) (hop : Hop) (bad good : String)
    (hops : Dict HopState) : Type 0 where
  pub listed : Memᴰ hop def.hops
  pub joins_all : hop.join_type ≡ all
  pub unconditional : hop.condition ≡ none
  pub needs_bad : Memᴰ bad hop.depends_on
  pub needs_good : Memᴰ good hop.depends_on
  pub waits : status_of hops hop.id ≡ some pending
  pub bad_failed : status_of hops bad ≡ some failed
  pub good_complete : status_of hops good ≡ some complete

includes_of_mem :
    (hop : Hop) (hops : List Hop) → Memᴰ hop hops → includes hop.id (hop_ids hops) ≡ true
includes_of_mem hop [] m = elim m [ ]
includes_of_mem hop (g ∷ hops) (Memᴰ.head e) =
    let same : (g.id == hop.id) ≡ true = (eq_iff g.id hop.id).1 (ap (λ x. x.id) (sym e)) in
    ground arith
includes_of_mem hop (g ∷ hops) (Memᴰ.tail m) = ground (arith, includes_of_mem hop hops m)

-- Hops of a definition without duplicates are told apart by their identifiers.
unique_hop :
    (hops : List Hop) (a b : Hop) → IsUnique hops → Memᴰ a hops → Memᴰ b hops → a.id ≡ b.id → a ≡ b
unique_hop [] a b u m n e = elim m [ ]
unique_hop (g ∷ hops) a b u (Memᴰ.head p) (Memᴰ.head q) e = p ∙ sym q
unique_hop (g ∷ hops) a b u (Memᴰ.head p) (Memᴰ.tail n) e =
    let same : g.id ≡ b.id = ap (λ x. x.id) (sym p) ∙ e in
    absurd (apart g b hops u.0 same (includes_of_mem b hops n))
unique_hop (g ∷ hops) a b u (Memᴰ.tail m) (Memᴰ.head q) e =
    let same : g.id ≡ a.id = ap (λ x. x.id) (sym q) ∙ sym e in
    absurd (apart g a hops u.0 same (includes_of_mem a hops m))
unique_hop (g ∷ hops) a b u (Memᴰ.tail m) (Memᴰ.tail n) e = unique_hop hops a b u.1 m n e

module _ (s : Setting) (hop : Hop) (bad good : String) (unique : IsUnique s.definition.hops) where
  abbrev Blocked : Work → Type 0
  Blocked w = IsBlocked s.definition hop bad good w.hops

  not_cascaded : (w : Work) (g : Hop) → Blocked w → g ≡ hop → all_non_success w.hops g ≡ true → ⊥
  unfolding all_non_success
  not_cascaded w g b e h =
      let fails =
        every-false (λ dep. is_non_success (status_of w.hops dep)) hop.depends_on b.needs_good
          (rw b.good_complete) in
      ground arith

  not_joined :
      (w : Work) (g : Hop)
      → Blocked w
      → g ≡ hop
      → join_satisfied w.hops g.join_type g.depends_on ≡ true
      → ⊥
  unfolding join_satisfied
  not_joined w g b e h =
      let fails =
        every-false (λ dep. is_satisfied (status_of w.hops dep)) hop.depends_on b.needs_bad
          (rw b.bad_failed) in
      let goes = subst (λ x. join_satisfied w.hops x.join_type x.depends_on ≡ true) e h in
      let every_one = subst (λ t. join_satisfied w.hops t hop.depends_on ≡ true) b.joins_all goes in
      true≢false (sym every_one ∙ fails)

  same_hop : (w : Work) (g : Hop) → Blocked w → Memᴰ g s.definition.hops → g.id ≡ hop.id → g ≡ hop
  same_hop w g b m e = unique_hop s.definition.hops g hop unique m b.listed e

  -- No step takes the hop itself.
  Step-elsewhere : {u v : Work} → Step s u v → Blocked u → status_of v.hops hop.id ≡ some pending
  unfolding skip write find_hop
  Step-elsewhere (cascade w id g p found fails) b = elim (text-cases id hop.id) [
    | inr other ↦ status_of-insert id hop.id _ w.hops ∙ rw other b.waits
    | inl same ↦
        let (named, m) = find-passes (λ h. h.id == id) s.definition.hops found in
        absurd (not_cascaded w g b (same_hop w g b m ((eq_iff g.id id).0 named ∙ same)) fails)
  ]
  Step-elsewhere (condition w g c m p ends has fails) b = elim (text-cases g.id hop.id) [
    | inr other ↦ status_of-insert g.id hop.id _ w.hops ∙ rw other b.waits
    | inl same ↦
        let none_here = ap (λ x. x.condition) (same_hop w g b m same) ∙ b.unconditional in
        cc none_here
  ]
  Step-elsewhere (join w g m p nonempty joined) b = elim (text-cases g.id hop.id) [
    | inr other ↦ status_of-insert g.id hop.id _ w.hops ∙ rw other b.waits
    | inl same ↦ absurd (not_joined w g b (same_hop w g b m same) joined)
  ]

  status_frame :
      {u v : Work} (id : String) (h : HopStatus)
      → Run s u v
      → status_of u.hops id ≡ some h
      → h ≢ pending
      → status_of v.hops id ≡ some h
  unfolding status_of
  status_frame {u} {v} id h r e n =
      let frame = Run-frame id r (λ p. n (some_eq (sym e ∙ p))) in rw (frame, status_of) e

  Step-Blocked : {u v : Work} → Step s u v → Blocked u → Blocked v
  Step-Blocked st b = record {
    listed = b.listed;
    joins_all = b.joins_all;
    unconditional = b.unconditional;
    needs_bad = b.needs_bad;
    needs_good = b.needs_good;
    waits = Step-elsewhere st b;
    bad_failed = status_frame bad failed (next here st) b.bad_failed (λ e. cc);
    good_complete = status_frame good complete (next here st) b.good_complete (λ e. cc);
  }

  Run-Blocked : {u v : Work} → Run s u v → Blocked u → Blocked v
  Run-Blocked here b = b
  Run-Blocked (next r st) b = Step-Blocked st (Run-Blocked r b)

-- A pending hop keeps the workflow open.
pending_open :
    (state : WorkflowState) (t : ℕ) (r : DagEvaluationResult) (id : String)
    → Verdict state t r
    → status_of r.state.hops id ≡ some pending
    → r.dag_status ≡ none
unfolding status_of
pending_open state t r id (open_still _ _ _ e _ _ _) p = e
pending_open state t r id (succeeded done _ _ _ _) p =
    elim (Option-cases (lookup id r.state.hops)) [
      | inl e ↦ ground arith
      | inr (h, e) ↦
          let over = All-get IsDone (mem_of_lookup id h r.state.hops e) done in ground arith
    ]
pending_open state t r id (broken _ over _ _ _ _ _ _) p =
    elim (Option-cases (lookup id r.state.hops)) [
      | inl e ↦ ground arith
      | inr (h, e) ↦
          let ends = All-get IsOver (mem_of_lookup id h r.state.hops e) over in ground arith
    ]

-- A pending hop with an AND-join and no condition, between a failed and a completed predecessor, is
-- so after every completion, failure or skip of a hop other than these three, if no two hops of
-- the definition share an identifier, and the evaluation finds the workflow neither complete nor
-- failed.
pub evaluate_dag-IsBlocked :
    (to_number : Value → Option ℤ) (def : WorkflowDefinition) (task : TaskMeta) (timestamp : ℕ)
    (state : WorkflowState) (event : HopEvent) (o : HopStatus) (r : DagEvaluationResult) (hop : Hop)
    (bad good : String)
    → IsUnique def.hops
    → outcome_status event.outcome ≡ some o
    → evaluate_dag to_number def task timestamp state event ≡ ok r
    → IsBlocked def hop bad good state.hops
    → hop.id ≢ event.hop_id
    → bad ≢ event.hop_id
    → good ≢ event.hop_id
    → IsBlocked def hop bad good r.state.hops × (r.dag_status ≡ none)
evaluate_dag-IsBlocked to_number def task timestamp state event o r hop bad good u n done b x y z =
    let after =
      Run-Blocked _ hop bad good u (run to_number def task timestamp state event o r u n done)
        (record {
          listed = b.listed;
          joins_all = b.joins_all;
          unconditional = b.unconditional;
          needs_bad = b.needs_bad;
          needs_good = b.needs_good;
          waits = unmoved hop.id x ∙ b.waits;
          bad_failed = unmoved bad y ∙ b.bad_failed;
          good_complete = unmoved good z ∙ b.good_complete;
        }) in
    (
      after,
      pending_open state timestamp r hop.id
          (evaluate_dag-Verdict to_number def task timestamp state event r done) after.waits,
    )
  where
    unmoved :
        (id : String)
        → id ≢ event.hop_id
        → status_of (after_event to_number def task timestamp state o event).hops id
          ≡ status_of state.hops id
    unmoved id = status-after_event_ne to_number def task timestamp state event o r u n done id
