-- ===== src/Workflow/Validate/Fields.antt =====
-- src/schemas/workflow-dag.ts, `validateDAG`: the checks of the hops and of their fields.
use Prim.Native.Char.{Char, code}
use aof.Prelude.{
  ℕ, String, Bool, false, not, ◌&&◌, ◌||◌, none, some, List, [], ◌∷◌, ◌++◌, includes, every,
  if◌then◌else◌, eqb, ltb, leb,
}
use aof.Workflow.Schema.{Hop}
use aof.Json.{chars}
use aof.Workflow.Complexity.{measure_condition_complexity, collect_hop_references}
use aof.Workflow.Validate.Errors.{
  ValidationError, duplicate_hop, missing_dependency, invalid_timeout, empty_escalation,
  condition_too_deep, condition_too_large, missing_reference,
}

abbrev max_condition_depth : ℕ
max_condition_depth = 5

abbrev max_condition_nodes : ℕ
max_condition_nodes = 50

-- A hop whose identifier was seen before.
unfoldable pub check_unique : List String → List Hop → List ValidationError
check_unique seen [] = []
check_unique seen (hop ∷ hops) =
    let rest = check_unique (hop.id ∷ seen) hops in
    if includes hop.id seen then duplicate_hop hop.id ∷ rest else rest

unfoldable pub check_dependencies : List String → String → List String → List ValidationError
check_dependencies ids hop [] = []
check_dependencies ids hop (dep ∷ deps) =
    let rest = check_dependencies ids hop deps in
    if not (includes dep ids) then missing_dependency hop dep ∷ rest else rest

-- A check of each hop, in order.
unfoldable pub check_hops : (Hop → List ValidationError) → List Hop → List ValidationError
check_hops check [] = []
check_hops check (hop ∷ hops) = check hop ++ check_hops check hops

-- /^\d+[mhd]$/
abbrev is_digit : Char → Bool
is_digit c = leb b'0' (code c) && leb (code c) b'9'

abbrev is_unit : Char → Bool
is_unit c = eqb (code c) b'm' || eqb (code c) b'h' || eqb (code c) b'd'

abbrev digits_then_unit : List Char → Bool
digits_then_unit [] = false
digits_then_unit (c ∷ []) = is_unit c
digits_then_unit (c ∷ d ∷ cs) = is_digit c && digits_then_unit (d ∷ cs)

unfoldable pub is_timeout : String → Bool
unfolding chars
is_timeout s = elim (chars s) [ [] ↦ false | c ∷ cs ↦ is_digit c && digits_then_unit cs ]

-- The white space and line ends that `trim` takes off.
abbrev is_space : Char → Bool
is_space c =
    leb 9 (code c) && leb (code c) 13
    || eqb (code c) 32
    || eqb (code c) 160
    || eqb (code c) 5760
    || leb 8192 (code c) && leb (code c) 8202
    || eqb (code c) 8232
    || eqb (code c) 8233
    || eqb (code c) 8239
    || eqb (code c) 8287
    || eqb (code c) 12288
    || eqb (code c) 65279

unfoldable pub is_blank : String → Bool
unfolding chars
is_blank s = every is_space (chars s)

unfoldable pub check_timeout : Hop → List ValidationError
unfolding is_timeout
check_timeout h = elim h.timeout [
  | none ↦ []
  | some t ↦ if not (is_timeout t) then invalid_timeout h.id t ∷ [] else []
]

unfoldable pub check_escalation : Hop → List ValidationError
unfolding is_blank
check_escalation h = elim h.escalate_to [
  | none ↦ []
  | some role ↦ if is_blank role then empty_escalation h.id ∷ [] else []
]

unfoldable pub check_complexity : Hop → List ValidationError
unfolding measure_condition_complexity
check_complexity h = elim h.condition [
  | none ↦ []
  | some c ↦
      let m = measure_condition_complexity c 0 in
      (if ltb max_condition_depth m.max_depth then condition_too_deep h.id m.max_depth ∷ [] else [])
      ++ (if ltb max_condition_nodes m.total_nodes
          then condition_too_large h.id m.total_nodes ∷ []
          else [])
]

unfoldable pub missing_references : List String → String → List String → List ValidationError
missing_references ids hop [] = []
missing_references ids hop (r ∷ refs) =
    let rest = missing_references ids hop refs in
    if not (includes r ids) then missing_reference hop r ∷ rest else rest

unfoldable pub check_references : List String → Hop → List ValidationError
unfolding collect_hop_references missing_references
check_references ids h = elim h.condition [
  | none ↦ []
  | some c ↦ missing_references ids h.id (collect_hop_references c)
]
