-- ===== src/Dag/Rejection.antt =====
-- src/dispatch/dag-evaluator.ts, `resetAllHopsForOrigin`, `resetPredecessorHops` and the branch of
-- `evaluateDAG` for a rejection.
use aof.Prelude.{
  ℕ, ◌+◌, String, Bool, true, false, not, ◌&&◌, ◌||◌, Option, none, some, List, [], ◌∷◌, ◌++◌, Dict,
  lookup, insert, if◌then◌else◌, every, includes, leb, ◌==◌,
}
use aof.Workflow.Schema.{
  Hop, WorkflowDefinition, HopState, HopStatus, pending, ready, dispatched, complete, failed,
  skipped, RejectionStrategy, origin, predecessors,
}
use aof.Dag.Types.{Result, ok, type_error, ◌>>=◌, Work}
use aof.Dag.Status.{status_of, is_ready, is_satisfied, fresh, finished, write}
use aof.Dag.Cascade.{find_hop, cascade_skips}
use aof.Dag.Ready.{is_empty, determine_ready_hops}

abbrev pub default_max_rejections : ℕ
default_max_rejections = 3

abbrev pub same_status : HopStatus → HopStatus → Bool
same_status pending pending = true
same_status ready ready = true
same_status dispatched dispatched = true
same_status complete complete = true
same_status failed failed = true
same_status skipped skipped = true
same_status _ _ = false

-- `{ status, ...(id === rejectedHopId ? { rejectionCount } : {}) }`
unfoldable pub reset_state : HopStatus → Bool → ℕ → HopState
unfolding fresh
reset_state s is_rejected count =
    let base = fresh s in record base { rejection_count = if is_rejected then some count else none }

module _ (rejected : String) (count : ℕ) where
  -- One round of the loop of `resetAllHopsForOrigin`.
  unfoldable pub reset_origin_hop : Hop → Work → Result Work
  unfolding reset_state write
  reset_origin_hop hop w =
      let new_status = if is_empty hop.depends_on then ready else pending in
      let h = reset_state new_status (hop.id == rejected) count in
      elim (lookup hop.id w.hops) [
        | none ↦ type_error
        | some prev ↦ ok (
            if not (same_status prev.status new_status) || hop.id == rejected
            then write hop.id (some prev.status) h (some "rejection_cascade_origin") w
            else record w { hops = insert hop.id h w.hops })
      ]

  unfoldable pub reset_all_hops_for_origin : List Hop → Work → Result Work
  reset_all_hops_for_origin [] w = ok w
  reset_all_hops_for_origin (hop ∷ hops) w =
      reset_origin_hop hop w >>= λ w'. reset_all_hops_for_origin hops w'

-- `new Set(ids)`: the first occurrence of each, in order.
unfoldable pub dedupe : List String → List String → List String
dedupe seen [] = []
dedupe seen (id ∷ ids) =
    let again = dedupe seen ids in
    let new = id ∷ dedupe (id ∷ seen) ids in if includes id seen then again else new

module _ (def : WorkflowDefinition) (rejected : String) (count : ℕ) (reset_set : List String) where
  -- A root is ready; another hop is, if each dependency is outside the set and satisfied.
  unfoldable pub predecessor_status : Dict HopState → Hop → HopStatus
  predecessor_status hops hop =
      if every (λ dep. not (includes dep reset_set) && is_satisfied (status_of hops dep))
        hop.depends_on
      then ready
      else pending

  unfoldable pub reset_predecessor_hop : String → Work → Result Work
  unfolding reset_state write predecessor_status
  reset_predecessor_hop id w = elim (lookup id w.hops) [
    | none ↦ type_error
    | some prev ↦ elim (find_hop def id) [
      | none ↦ type_error
      | some hop ↦ ok (
          write id (some prev.status)
            (reset_state (predecessor_status w.hops hop) (id == rejected) count)
            (some "rejection_cascade_predecessors") w)
    ]
  ]

  unfoldable pub reset_each : List String → Work → Result Work
  reset_each [] w = ok w
  reset_each (id ∷ ids) w = reset_predecessor_hop id w >>= λ w'. reset_each ids w'

unfoldable pub reset_predecessor_hops : WorkflowDefinition → Hop → ℕ → Work → Result Work
unfolding reset_each
reset_predecessor_hops def hop count w =
    let reset_set = dedupe [] (hop.id ∷ hop.depends_on) in
    reset_each def hop.id count reset_set reset_set w

-- `rejectionCount ?? 0`
unfoldable pub rejections : Dict HopState → String → ℕ
rejections hops id = elim (lookup id hops) [
  | none ↦ 0
  | some s ↦ elim s.rejection_count [ none ↦ 0 | some n ↦ n ]
]

-- The circuit breaker: the hop fails for good, and its dependents are skipped.
unfoldable pub break_circuit : WorkflowDefinition → ℕ → ℕ → String → ℕ → Work → Result Work
unfolding finished write
break_circuit def timestamp fuel id count w =
    let base = finished failed timestamp (lookup id w.hops) in
    cascade_skips def timestamp fuel id (
      write id (status_of w.hops id) (record base { rejection_count = some count })
        (some "circuit_breaker") w)

-- `rejectionStrategy ?? "origin"`
unfoldable pub apply_by :
    Option RejectionStrategy → WorkflowDefinition → Hop → ℕ → Work → Result Work
apply_by none def hop count w = reset_all_hops_for_origin hop.id count def.hops w
apply_by (some origin) def hop count w = reset_all_hops_for_origin hop.id count def.hops w
apply_by (some predecessors) def hop count w = reset_predecessor_hops def hop count w

unfoldable pub apply_strategy : WorkflowDefinition → Hop → ℕ → Work → Result Work
apply_strategy def hop count w = apply_by hop.rejection_strategy def hop count w

-- The hops that the branch reports as ready, those already ready in the state included.
unfoldable pub add_ready : Dict HopState → List Hop → List String → List String
add_ready hops [] acc = acc
add_ready hops (hop ∷ rest) acc = add_ready hops rest (
    if is_ready (status_of hops hop.id) && not (includes hop.id acc)
    then acc ++ hop.id ∷ []
    else acc)

unfoldable pub rejection_ready_hops : Dict HopState → List Hop → List String
unfolding add_ready
rejection_ready_hops hops defs = add_ready hops defs (determine_ready_hops hops defs)

unfoldable pub reject_hop : WorkflowDefinition → ℕ → ℕ → String → Work → Result Work
unfolding rejections
reject_hop def timestamp fuel id w =
    let count = rejections w.hops id + 1 in
    if leb default_max_rejections count
    then break_circuit def timestamp fuel id count w
    else elim (find_hop def id) [ none ↦ type_error | some hop ↦ apply_strategy def hop count w ]
