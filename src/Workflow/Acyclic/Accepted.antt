-- ===== src/Workflow/Acyclic/Accepted.antt =====
-- src/schemas/workflow-dag.ts, `validateDAG`: it returns, and what it accepts.
use aof.Prelude.{
  String, true, false, some, List, [], ◌∷◌, ◌++◌, includes, ◌≡◌, refl, sym, ◌∙◌, arith, eq_iff,
  eq_refl, some_eq, All, All-map, All-get,
}
use aof.Workflow.Schema.{Hop, WorkflowDefinition}
use aof.Workflow.Validate.Errors.{ValidationError, ids_of}
use aof.Workflow.Validate.Fields.{check_unique, check_dependencies, check_hops}
use aof.Workflow.Validate.{validate_dag, graph_errors, field_errors, check_roots}
use aof.Workflow.Acyclic.Counts.{Within}
use aof.Workflow.Acyclic.Cycles.{IsAcyclic, sorted-IsAcyclic}
use aof.Workflow.Acyclic.Cyclic.{check_cycles_lem}
use aof.Workflow.Acyclic.Visits.{check_reachable_returns}
use aof.Dag.Run.Joins.{IsUnique, hop_ids}

append_nil {ℓ} : {A : Type ℓ} (xs ys : List A) → xs ++ ys ≡ [] → (xs ≡ []) × (ys ≡ [])
append_nil [] ys h = (refl, h)
append_nil (x ∷ xs) ys h = cc

seen_apart :
    (x : String) (seen : List String) (hops : List Hop)
    → check_unique seen hops ≡ []
    → includes x seen ≡ true
    → includes x (hop_ids hops) ≡ false
unfolding check_unique
seen_apart x seen [] h m = refl
seen_apart x seen (hop ∷ hops) h m =
    ground (arith, seen_apart x (hop.id ∷ seen) hops (ground arith) (ground arith), eq_iff hop.id x)

check_unique-IsUnique :
    (seen : List String) (hops : List Hop) → check_unique seen hops ≡ [] → IsUnique hops
unfolding check_unique
check_unique-IsUnique seen [] h = tt
check_unique-IsUnique seen (hop ∷ hops) h =
    let rest : check_unique (hop.id ∷ seen) hops ≡ [] = ground arith in
    (
      seen_apart hop.id (hop.id ∷ seen) hops rest (rw (eq_refl hop.id) refl),
      check_unique-IsUnique (hop.id ∷ seen) hops rest,
    )

dependencies_known :
    (ids : List String) (hop : String) (deps : List String)
    → check_dependencies ids hop deps ≡ []
    → Within deps ids
unfolding check_dependencies
dependencies_known ids hop [] h x m = cc
dependencies_known ids hop (d ∷ deps) h x m =
    ground (arith, dependencies_known ids hop deps (ground arith) x, eq_iff d x)

check_hops-All :
    (check : Hop → List ValidationError) (hops : List Hop)
    → check_hops check hops ≡ []
    → All (λ h. check h ≡ []) hops
unfolding check_hops
check_hops-All check [] h = tt
check_hops-All check (hop ∷ hops) h =
    let (first, rest) = append_nil (check hop) (check_hops check hops) h in
    (first, check_hops-All check hops rest)

-- `validateDAG` returns for every definition: the fuel of its two loops suffices.
pub validate_dag_returns :
    (def : WorkflowDefinition) → (errors : List ValidationError) × (validate_dag def ≡ some errors)
unfolding validate_dag
validate_dag_returns def =
    let (cycles, done, runs, s, full) = check_cycles_lem def.hops in
    let (unreachable, ends) = check_reachable_returns def.hops in
    (
      graph_errors def.hops cycles unreachable ++ field_errors def.hops,
      rw (runs, validate_dag) (rw ends refl),
    )

first_nil {ℓ} :
    {A : Type ℓ} (a b c d e : List A) → a ++ b ++ c ++ d ++ e ≡ [] → (a ≡ []) × (b ≡ []) × (d ≡ [])
first_nil a b c d e h =
    let abcd = (append_nil (a ++ b ++ c ++ d) e h).0 in
    let (abc, d_nil) = append_nil (a ++ b ++ c) d abcd in
    let ab = (append_nil (a ++ b) c abc).0 in
    let (a_nil, b_nil) = append_nil a b ab in (a_nil, b_nil, d_nil)

none_of_all :
    (hops : List Hop) (cycles unreachable : List ValidationError)
    → graph_errors hops cycles unreachable ≡ []
    → (check_unique [] hops ≡ [])
      × (check_hops (λ h. check_dependencies (ids_of hops) h.id h.depends_on) hops ≡ [])
      × (cycles ≡ [])
unfolding graph_errors
none_of_all hops cycles unreachable h =
    first_nil (check_unique [] hops)
      (check_hops (λ h. check_dependencies (ids_of hops) h.id h.depends_on) hops) (check_roots hops)
      cycles unreachable h

-- What `validateDAG` accepts: no two hops share an identifier, every dependency is a hop, and no hop
-- depends on itself by a chain.
pub validate_dag_sound :
    (def : WorkflowDefinition)
    → validate_dag def ≡ some []
    → IsUnique def.hops
      × All (λ h. Within h.depends_on (ids_of def.hops)) def.hops
      × IsAcyclic def.hops
unfolding validate_dag
validate_dag_sound def accepted =
    let hops = def.hops in
    let (cycles, done, runs, s, full) = check_cycles_lem hops in
    let (unreachable, ends) = check_reachable_returns hops in
    let value : validate_dag def
        ≡ some (graph_errors hops cycles unreachable ++ field_errors hops) =
      rw (runs, validate_dag) (rw ends refl) in
    let empty : graph_errors hops cycles unreachable ++ field_errors hops ≡ [] =
      some_eq (sym value ∙ accepted) in
    let (unique, dependencies, no_cycles) =
      none_of_all hops cycles unreachable
        (append_nil (graph_errors hops cycles unreachable) (field_errors hops) empty).0 in
    let known : All (λ h. Within h.depends_on (ids_of hops)) hops =
      All-map (λ h. dependencies_known (ids_of hops) h.id h.depends_on) hops
        (check_hops-All (λ h. check_dependencies (ids_of hops) h.id h.depends_on) hops
          dependencies) in
    (
      check_unique-IsUnique [] hops unique,
      known,
      sorted-IsAcyclic hops done s (full no_cycles)
          (λ a b (h, m, e, inc). All-get (λ x. Within x.depends_on (ids_of hops)) m known b inc),
    )
