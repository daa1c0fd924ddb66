-- ===== src/Workflow/Complexity.antt =====
-- src/schemas/workflow-dag.ts, `measureConditionComplexity` and `collectHopReferences`.
use aof.Prelude.{
  ℕ, suc, ◌+◌, ◌≤◌, max, String, none, List, [], ◌∷◌, ◌++◌, ◌≡◌, refl, arith, if◌then◌else◌, ltb,
  ◌==◌,
}
use aof.Json.{split_dots}
use aof.Workflow.Schema.{
  ConditionExpr, Conditions, eq, neq, gt, gte, lt, lte, one_of, has_tag, hop_status, and_all,
  or_any, negate, always, never, nil, cons,
}

pub record Complexity : Type 0 where
  pub max_depth : ℕ
  pub total_nodes : ℕ

abbrev leaf : ℕ → Complexity
leaf depth = record { max_depth = depth; total_nodes = 1 }

-- The body of the loop over the children.
abbrev add_child : Complexity → Complexity → Complexity
add_child acc child = record {
  max_depth = if ltb acc.max_depth child.max_depth then child.max_depth else acc.max_depth;
  total_nodes = acc.total_nodes + child.total_nodes;
}

-- `measure_children` carries the accumulator of the loop.
unfoldable mutual
  pub measure_condition_complexity : ConditionExpr → ℕ → Complexity
  measure_condition_complexity (and_all cs) depth = measure_children cs depth (leaf depth)
  measure_condition_complexity (or_any cs) depth = measure_children cs depth (leaf depth)
  measure_condition_complexity (negate c) depth =
      let inner = measure_condition_complexity c (depth + 1) in
      record { max_depth = inner.max_depth; total_nodes = 1 + inner.total_nodes }
  measure_condition_complexity _ depth = leaf depth

  pub measure_children : Conditions → ℕ → Complexity → Complexity
  measure_children nil depth acc = acc
  measure_children (cons c cs) depth acc =
      measure_children cs depth (add_child acc (measure_condition_complexity c (depth + 1)))

-- The height and the size of the tree.
unfoldable mutual
  pub height : ConditionExpr → ℕ
  height (and_all cs) = height_children cs
  height (or_any cs) = height_children cs
  height (negate c) = suc (height c)
  height _ = 0

  pub height_children : Conditions → ℕ
  height_children nil = 0
  height_children (cons c cs) = max (suc (height c)) (height_children cs)

unfoldable mutual
  pub size : ConditionExpr → ℕ
  size (and_all cs) = suc (size_children cs)
  size (or_any cs) = suc (size_children cs)
  size (negate c) = suc (size c)
  size _ = 1

  pub size_children : Conditions → ℕ
  size_children nil = 0
  size_children (cons c cs) = size c + size_children cs

-- What the measure is, of an expression and of the rest of a loop.
abbrev Measures : ConditionExpr → ℕ → Type 0
Measures c depth =
    ((measure_condition_complexity c depth).max_depth ≡ depth + height c)
    × ((measure_condition_complexity c depth).total_nodes ≡ size c)

abbrev MeasuresAll : Conditions → ℕ → Complexity → Type 0
MeasuresAll cs depth acc =
    ((measure_children cs depth acc).max_depth ≡ max acc.max_depth (depth + height_children cs))
    × ((measure_children cs depth acc).total_nodes ≡ acc.total_nodes + size_children cs)

add_child_depth :
    (acc child : Complexity) → (add_child acc child).max_depth ≡ max acc.max_depth child.max_depth
add_child_depth acc child = ground arith

mutual
  unfolding measure_condition_complexity height size

  measure_all : (c : ConditionExpr) (depth : ℕ) → Measures c depth
  measure_all (and_all cs) depth = omega (arith, measure_loop cs depth (leaf depth) (omega arith))
  measure_all (or_any cs) depth = omega (arith, measure_loop cs depth (leaf depth) (omega arith))
  measure_all (negate c) depth = omega (arith, measure_all c (depth + 1))
  measure_all _ depth = omega arith

  measure_loop :
      (cs : Conditions) (depth : ℕ) (acc : Complexity)
      → depth ≤ acc.max_depth
      → MeasuresAll cs depth acc
  measure_loop nil depth acc h = omega arith
  measure_loop (cons c cs) depth acc h =
      let child = measure_condition_complexity c (depth + 1) in
      omega (
        arith,
        measure_all c (depth + 1),
        add_child_depth acc child,
        measure_loop cs depth (add_child acc child) (omega (arith, add_child_depth acc child)),
      )

-- The measure is the depth given plus the height of the tree, and the number of its nodes.
pub measure_lem :
    (c : ConditionExpr) (depth : ℕ)
    → ((measure_condition_complexity c depth).max_depth ≡ depth + height c)
      × ((measure_condition_complexity c depth).total_nodes ≡ size c)
measure_lem c depth = measure_all c depth

-- The identifier that /^hops\.([^.]+)/ captures: the second piece, if the first is "hops".
field_reference : List String → List String
field_reference (first ∷ second ∷ rest) =
    if first == "hops" then (if second == "" then [] else second ∷ []) else []
field_reference _ = []

unfoldable mutual
  unfolding field_reference

  pub collect_hop_references : ConditionExpr → List String
  collect_hop_references (eq path v) = field_reference (split_dots path)
  collect_hop_references (neq path v) = field_reference (split_dots path)
  collect_hop_references (gt path n) = field_reference (split_dots path)
  collect_hop_references (gte path n) = field_reference (split_dots path)
  collect_hop_references (lt path n) = field_reference (split_dots path)
  collect_hop_references (lte path n) = field_reference (split_dots path)
  collect_hop_references (one_of path xs) = field_reference (split_dots path)
  collect_hop_references (has_tag tag) = []
  collect_hop_references (hop_status hop status) = hop ∷ []
  collect_hop_references (and_all cs) = collect_children cs
  collect_hop_references (or_any cs) = collect_children cs
  collect_hop_references (negate c) = collect_hop_references c
  collect_hop_references always = []
  collect_hop_references never = []

  pub collect_children : Conditions → List String
  collect_children nil = []
  collect_children (cons c cs) = collect_hop_references c ++ collect_children cs

collect_sample :
    collect_hop_references (
      and_all
        (cons (eq "hops.review.result.ok" none) (cons (negate (hop_status "build" "failed")) nil)))
    ≡ "review" ∷ "build" ∷ []
unfolding collect_hop_references split_dots
collect_sample = refl
