-- ===== src/Workflow/Initial.antt =====
-- src/schemas/workflow-dag.ts, `initializeWorkflowState`.
use mathlib.Core.List.{Memᴰ}
use aof.Dag.Cascade.{find_hop}
use mathlib.Core.Option
use aof.Prelude.{
  Option-cases, find, find-passes, inl, inr, ap, ◌==◌, eq_iff, String, false, none, some, List, [],
  ◌∷◌, Dict, lookup, insert, lookup-insert, ◌≡◌, refl, sym, ◌∙◌, arith, subst, includes, eq_refl,
}
use aof.Workflow.Schema.{Hop, WorkflowDefinition, WorkflowState, WorkflowStatus, HopState}
use aof.Dag.Status.{fresh}
use aof.Dag.Run.Joins.{IsUnique, hop_ids}
use aof.Dag.Rejected.Log.{initial_status}

-- The loop; `hops[id] = { status }`.
initialize_hops : List Hop → Dict HopState → Dict HopState
initialize_hops [] hops = hops
initialize_hops (hop ∷ rest) hops =
    initialize_hops rest (insert hop.id (fresh (initial_status hop)) hops)

unfoldable pub initialize_workflow_state : WorkflowDefinition → WorkflowState
unfolding initialize_hops
initialize_workflow_state def = record {
  status = WorkflowStatus.pending;
  hops = initialize_hops def.hops [];
  started_at = none;
  completed_at = none;
}

initialize_frame :
    (hops : List Hop) (m : Dict HopState) (id : String)
    → includes id (hop_ids hops) ≡ false
    → lookup id (initialize_hops hops m) ≡ lookup id m
unfolding initialize_hops
initialize_frame [] m id h = refl
initialize_frame (hop ∷ hops) m id h =
    initialize_frame hops _ id (ground arith)
    ∙ lookup-insert hop.id id (fresh (initial_status hop)) m
    ∙ ground arith

initialize_lookup :
    (hops : List Hop) (m : Dict HopState) (hop : Hop)
    → IsUnique hops
    → Memᴰ hop hops
    → lookup hop.id (initialize_hops hops m) ≡ some (fresh (initial_status hop))
unfolding initialize_hops
initialize_lookup [] m hop u mem = elim mem [ ]
initialize_lookup (g ∷ hops) m hop u (Memᴰ.head same) =
    subst (λ x. lookup x.id (initialize_hops (g ∷ hops) m) ≡ some (fresh (initial_status x)))
      (sym same)
      (initialize_frame hops _ g.id u.0
        ∙ lookup-insert g.id g.id (fresh (initial_status g)) m
        ∙ rw (eq_refl g.id))
initialize_lookup (g ∷ hops) m hop u (Memᴰ.tail mem) = initialize_lookup hops _ hop u.1 mem

-- The initial state of a definition whose hops have different identifiers holds each hop of it,
-- ready if it is a root and pending if not, with nothing else set.
pub initialize-hop :
    (def : WorkflowDefinition) (hop : Hop)
    → IsUnique def.hops
    → Memᴰ hop def.hops
    → lookup hop.id (initialize_workflow_state def).hops ≡ some (fresh (initial_status hop))
unfolding initialize_workflow_state
initialize-hop def hop u m = initialize_lookup def.hops [] hop u m

-- The initial state holds no other hop than those of the definition.
pub initialize-absent :
    (def : WorkflowDefinition) (id : String)
    → includes id (hop_ids def.hops) ≡ false
    → lookup id (initialize_workflow_state def).hops ≡ none
unfolding initialize_workflow_state lookup
initialize-absent def id h = initialize_frame def.hops [] id h

not_found :
    (id : String) (hops : List Hop)
    → find (λ h. h.id == id) hops ≡ none
    → includes id (hop_ids hops) ≡ false
not_found id [] h = refl
not_found id (hop ∷ hops) h = ground (arith, not_found id hops)

-- The initial state of a definition whose hops have different identifiers finds under an identifier
-- the state of the hop of that identifier, ready if the hop is a root and pending if not, with nothing
-- else set, and nothing where the definition has no hop.
pub initialize_workflow_state_lem :
    (def : WorkflowDefinition) (id : String)
    → IsUnique def.hops
    → lookup id (initialize_workflow_state def).hops
      ≡ Option.map (λ h. fresh (initial_status h)) (find_hop def id)
unfolding find_hop
initialize_workflow_state_lem def id u = elim (Option-cases (find (λ h. h.id == id) def.hops)) [
  | inl missing ↦
      initialize-absent def id (not_found id def.hops missing)
      ∙ ap (Option.map (λ h. fresh (initial_status h))) (sym missing)
  | inr (h, e) ↦
      let (named, m) = find-passes (λ h. h.id == id) def.hops e in
      ap (λ x. lookup x (initialize_workflow_state def).hops) (sym ((eq_iff h.id id).0 named))
      ∙ initialize-hop def h u m
      ∙ ap (Option.map (λ h. fresh (initial_status h))) (sym e)
]
