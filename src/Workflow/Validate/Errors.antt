-- ===== src/Workflow/Validate/Errors.antt =====
-- src/schemas/workflow-dag.ts, `validateDAG`: its errors. An error is a constructor with what its text is
-- made of.
use aof.Prelude.{ℕ, String, List, [], ◌∷◌}
use aof.Workflow.Schema.{Hop}

pub data ValidationError : Type 0 where
  duplicate_hop : String → ValidationError
  missing_dependency : (hop dep : String) → ValidationError
  no_root_hops : ValidationError
  cycle_detected : List String → ValidationError
  unreachable_hops : List String → ValidationError
  invalid_timeout : (hop timeout : String) → ValidationError
  empty_escalation : (hop : String) → ValidationError
  condition_too_deep condition_too_large : (hop : String) → ℕ → ValidationError
  missing_reference : (hop reference : String) → ValidationError

abbrev pub ids_of : List Hop → List String
ids_of [] = []
ids_of (hop ∷ hops) = hop.id ∷ ids_of hops
