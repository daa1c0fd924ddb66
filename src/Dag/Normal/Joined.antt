-- ===== src/Dag/Normal/Joined.antt =====
-- The joins of the result: what `determineReadyHops` finds is exact for the final state.
use mathlib.Core.List.{Memᴰ}
use mathlib.Core.Bool.{true≢false}
use aof.Prelude.{
  ℕ, String, true, ◌&&◌, Option, none, some, List, [], ◌∷◌, Dict, lookup, ◌≡◌, ◌≢◌, refl, sym, ◌∙◌,
  ap, arith, subst, if◌then◌else◌, ◌==◌, includes, Bool-cases, All, ◌⊎◌, inl, inr, eq_iff,
}
use aof.Prelude.Int.{ℤ}
use aof.Json.{Value}
use aof.Workflow.Schema.{
  Hop, JoinType, all, any, WorkflowDefinition, WorkflowState, HopStatus, pending, ready, HopState,
}
use aof.Dag.Condition.{TaskMeta}
use aof.Dag.Types.{ok, HopEvent, Work, DagEvaluationResult}
use aof.Dag.Status.{status_of, is_complete, with_status, write, status_of-insert, with_status_lem}
use aof.Dag.Ready.{join_satisfied, newly_ready, determine_ready_hops, mark_ready}
use aof.Dag.Evaluate.{evaluate_dag}
use aof.Dag.Run.Sound.{is_pending_eq}
use aof.Dag.Run.Joins.{Agree, join_satisfied-Agree, newly_ready-parts}
use aof.Dag.Normal.Settled.{IsSettled, judged}
use aof.Dag.Normal.Trace.{outcome_status, evaluate_dag-IsSettled}

status-mark_ready :
    (ids : List String) (w : Work) (j : String)
    → status_of (mark_ready ids w).hops j
      ≡ (if includes j ids then some ready else status_of w.hops j)
unfolding mark_ready write
status-mark_ready [] w j = refl
status-mark_ready (id ∷ ids) w j =
    let h = with_status ready (lookup id w.hops) in
    ground (
      arith,
      status-mark_ready ids (write id (some pending) h none w) j,
      status_of-insert id j h w.hops,
      with_status_lem ready (lookup id w.hops),
    )

-- The hops found are those of the list that are newly ready.
determine_ready_sound :
    (m : Dict HopState) (hops : List Hop) (id : String)
    → includes id (determine_ready_hops m hops) ≡ true
    → (hop : Hop) × Memᴰ hop hops × (hop.id ≡ id) × (newly_ready m hop ≡ true)
unfolding determine_ready_hops
determine_ready_sound m [] id h = cc
determine_ready_sound m (hop ∷ hops) id h =
    elim (Bool-cases (newly_ready m hop && (hop.id == id))) [
      | inl e ↦ (hop, Memᴰ.head refl, ground (arith, eq_iff hop.id id), ground arith)
      | inr e ↦
          let (g, m', same, goes) = determine_ready_sound m hops id (ground arith) in
          (g, Memᴰ.tail m', same, goes)
    ]

pub determine_ready_complete :
    (m : Dict HopState) (hop : Hop) (hops : List Hop)
    → Memᴰ hop hops
    → newly_ready m hop ≡ true
    → includes hop.id (determine_ready_hops m hops) ≡ true
unfolding determine_ready_hops
determine_ready_complete m hop [] mem h = elim mem [ ]
determine_ready_complete m hop (g ∷ hops) (Memᴰ.head e) h =
    let at : newly_ready m g ≡ true = subst (λ x. newly_ready m x ≡ true) e h in
    let same : (g.id == hop.id) ≡ true = (eq_iff g.id hop.id).1 (ap (λ x. x.id) (sym e)) in
    ground arith
determine_ready_complete m hop (g ∷ hops) (Memᴰ.tail mem) h =
    ground (arith, determine_ready_complete m hop hops mem h)

pub newly_ready_of :
    (m : Dict HopState) (hop : Hop)
    → status_of m hop.id ≡ some pending
    → hop.depends_on ≢ []
    → join_satisfied m hop.join_type hop.depends_on ≡ true
    → newly_ready m hop ≡ true
unfolding newly_ready
newly_ready_of m hop p n j = ground arith

-- Marking the hops found changes no join.
Agree-mark_ready :
    (hops : List Hop) (w : Work)
    → Agree w.hops (mark_ready (determine_ready_hops w.hops hops) w).hops
Agree-mark_ready hops w = record {
  completes = λ j. ground (arith, status-mark_ready ids w j, was_pending j);
  satisfies = λ j. ground (arith, status-mark_ready ids w j, was_pending j);
}
  where
    ids : List String
    ids = determine_ready_hops w.hops hops

    was_pending : (j : String) → includes j ids ≡ true → status_of w.hops j ≡ some pending
    was_pending j h =
        let (hop, m, same, goes) = determine_ready_sound w.hops hops j h in
        let (p, _, _) = newly_ready-parts w.hops hop goes in
        subst (λ x. status_of w.hops x ≡ some pending) same (is_pending_eq _ p)

-- What the two join types mean: an OR-join wants one completed predecessor, an AND-join wants
-- every predecessor completed or skipped.
abbrev pub JoinHolds : Dict HopState → JoinType → List String → Type 0
JoinHolds hops any deps =
    (dep : String) × Memᴰ dep deps × (status_of hops dep ≡ some HopStatus.complete)
JoinHolds hops all deps =
    All
      (λ dep.
        (status_of hops dep ≡ some HopStatus.complete)
        ⊎ (status_of hops dep ≡ some HopStatus.skipped))
      deps

any_complete-holds :
    (hops : Dict HopState) (deps : List String)
    → join_satisfied hops any deps ≡ true
    → JoinHolds hops any deps
unfolding join_satisfied
any_complete-holds hops [] h = cc
any_complete-holds hops (d ∷ deps) h = elim (Bool-cases (is_complete (status_of hops d))) [
  | inl e ↦ (d, Memᴰ.head refl, ground arith)
  | inr e ↦ let (x, m, c) = any_complete-holds hops deps (ground arith) in (x, Memᴰ.tail m, c)
]

all_satisfied-holds :
    (hops : Dict HopState) (deps : List String)
    → join_satisfied hops all deps ≡ true
    → JoinHolds hops all deps
unfolding join_satisfied
all_satisfied-holds hops [] h = tt
all_satisfied-holds hops (d ∷ deps) h = (ground arith, all_satisfied-holds hops deps (ground arith))

join_satisfied→JoinHolds :
    (hops : Dict HopState) (t : JoinType) (deps : List String)
    → join_satisfied hops t deps ≡ true
    → JoinHolds hops t deps
join_satisfied→JoinHolds hops any deps h = any_complete-holds hops deps h
join_satisfied→JoinHolds hops all deps h = all_satisfied-holds hops deps h

pub JoinHolds→join_satisfied :
    (hops : Dict HopState) (t : JoinType) (deps : List String)
    → JoinHolds hops t deps
    → join_satisfied hops t deps ≡ true
unfolding join_satisfied
JoinHolds→join_satisfied hops any [] (x, m, c) = elim m [ ]
JoinHolds→join_satisfied hops any (d ∷ deps) (x, Memᴰ.head e, c) =
    let at : status_of hops d ≡ some HopStatus.complete =
      subst (λ y. status_of hops y ≡ some HopStatus.complete) e c in
    ground arith
JoinHolds→join_satisfied hops any (d ∷ deps) (x, Memᴰ.tail m, c) =
    ground (arith, JoinHolds→join_satisfied hops any deps (x, m, c))
JoinHolds→join_satisfied hops all [] h = refl
JoinHolds→join_satisfied hops all (d ∷ deps) (h, hs) =
    ground (arith, JoinHolds→join_satisfied hops all deps hs)

module _ (to_number : Value → Option ℤ) (def : WorkflowDefinition) (task : TaskMeta) (timestamp : ℕ)
    (state : WorkflowState) (event : HopEvent) (o : HopStatus) (r : DagEvaluationResult)
    (normal : outcome_status event.outcome ≡ some o)
    (done : evaluate_dag to_number def task timestamp state event ≡ ok r) where
  settled : IsSettled to_number def task timestamp state o event r
  settled = evaluate_dag-IsSettled to_number def task timestamp state event o r normal done

  judged_work : Work
  judged_work = judged to_number def task timestamp settled.cascaded

  Agree-final : Agree judged_work.hops r.state.hops
  unfolding judged_work
  Agree-final =
      subst (Agree judged_work.hops) (sym settled.hops_eq) (Agree-mark_ready def.hops judged_work)

  status-final :
      (id : String)
      → status_of r.state.hops id
        ≡ (if includes id r.ready_hops then some ready else status_of judged_work.hops id)
  unfolding judged_work
  status-final id =
      ap (λ m. status_of m id) settled.hops_eq
      ∙ status-mark_ready _ judged_work id
      ∙ ap (λ ids. if includes id ids then some ready else status_of judged_work.hops id)
          (sym settled.ready_eq)

  -- For a completion, failure or skip, if no two hops of the definition share an identifier: a hop
  -- reported as ready is a hop of the definition, is ready in the new state, has predecessors, and
  -- its join holds in the new state.
  pub ready_hops_sound :
      (id : String)
      → includes id r.ready_hops ≡ true
      → (hop : Hop) × Memᴰ hop def.hops
        × (hop.id ≡ id)
        × (status_of r.state.hops id ≡ some ready)
        × (hop.depends_on ≢ [])
        × JoinHolds r.state.hops hop.join_type hop.depends_on
  unfolding judged_work
  ready_hops_sound id h =
      let (hop, m, same, goes) =
        determine_ready_sound judged_work.hops def.hops id (rw settled.ready_eq at h) in
      let (_, nonempty, joined) = newly_ready-parts judged_work.hops hop goes in
      (
        hop,
        m,
        same,
        status-final id ∙ rw h,
        (λ e. cc),
        join_satisfied→JoinHolds r.state.hops hop.join_type hop.depends_on
            (sym (join_satisfied-Agree hop.join_type hop.depends_on Agree-final) ∙ joined),
      )

  -- For a completion, failure or skip, if no two hops of the definition share an identifier, no hop
  -- is left waiting: if a hop of the definition that has predecessors is still pending in
  -- the new state, its join does not hold there.
  pub pending_join_fails :
      (hop : Hop)
      → Memᴰ hop def.hops
      → status_of r.state.hops hop.id ≡ some pending
      → hop.depends_on ≢ []
      → ¬ JoinHolds r.state.hops hop.join_type hop.depends_on
  unfolding judged_work
  pending_join_fails hop m p nonempty holds =
      let joined =
        join_satisfied-Agree hop.join_type hop.depends_on Agree-final
        ∙ JoinHolds→join_satisfied r.state.hops hop.join_type hop.depends_on holds in
      elim (Bool-cases (includes hop.id r.ready_hops)) [
        | inl found ↦ ground (arith, status-final hop.id)
        | inr absent ↦
            let waits : status_of judged_work.hops hop.id ≡ some pending =
              ground (arith, status-final hop.id) in
            let found =
              determine_ready_complete judged_work.hops hop def.hops m
                (newly_ready_of judged_work.hops hop waits nonempty joined) in
            absurd (true≢false (sym found ∙ ap (includes hop.id) (sym settled.ready_eq) ∙ absent))
      ]
