-- ===== src/Dag/Condition.antt =====
-- src/dispatch/dag-condition-evaluator.ts
-- `to_number` is the language's conversion of a text, an array or an object to a number, where
-- `none` is NaN: an argument, with nothing assumed of it.
use aof.Prelude.{
  String, Bool, true, false, ◌&&◌, ◌||◌, not, List, [], ◌∷◌, Option, none, some, Dict, lookup,
  includes, ◌==◌,
}
use aof.Prelude.Int
use aof.Prelude.Int.{ℤ, pos}
use aof.Json.{
  unit, Value, Items, Fields, empty_object, strict_eq_or_undefined, includes_value, get_field,
}
use aof.Workflow.Schema.{
  ConditionExpr, Conditions, eq, neq, gt, gte, lt, lte, one_of, has_tag, hop_status, and_all,
  or_any, negate, always, never, nil, cons, HopStatus, pending, ready, dispatched, complete, failed,
  skipped, HopState,
}

pub record TaskMeta : Type 0 where
  pub status : String
  pub tags : List String
  pub priority : String
  pub routing : Fields

pub record ConditionContext : Type 0 where
  pub context : Value
  pub hop_states : Dict HopState
  pub task : TaskMeta

abbrev tag_items : List String → Items
tag_items [] = Items.nil
tag_items (t ∷ ts) = Items.cons (Value.text t) (tag_items ts)

task_value : TaskMeta → Value
task_value t = Value.obj (
    Fields.field "status" (Value.text t.status) (
      Fields.field "tags" (Value.arr (tag_items t.tags)) (
        Fields.field "priority" (Value.text t.priority)
          (Fields.field "routing" (Value.obj t.routing) Fields.end))))

result_value : HopState → Value
result_value s = Value.obj (
    Fields.field "result" (elim s.result [ none ↦ empty_object | some fs ↦ Value.obj fs ])
      Fields.end)

hop_results : Dict HopState → Fields
unfolding result_value
hop_results [] = Fields.end
hop_results ((id, s) ∷ m) = Fields.field id (result_value s) (hop_results m)

unfoldable pub build_condition_context : Dict HopState → TaskMeta → Value
unfolding hop_results task_value
build_condition_context hops task = Value.obj (
    Fields.field "hops" (Value.obj (hop_results hops))
      (Fields.field "task" (task_value task) Fields.end))

-- The texts of the statuses in the schema.
unfoldable pub status_text : HopStatus → String
status_text pending = "pending"
status_text ready = "ready"
status_text dispatched = "dispatched"
status_text complete = "complete"
status_text failed = "failed"
status_text skipped = "skipped"

has_status : Dict HopState → String → String → Bool
unfolding status_text
has_status hops hop status = elim (lookup hop hops) [
  | none ↦ false
  | some s ↦ status_text s.status == status
]

-- A number as `<` and the like read it, NaN as `none`.
abbrev as_number : (Value → Option ℤ) → Value → Option ℤ
as_number to_number Value.null = some (pos 0)
as_number to_number (Value.bool true) = some (pos unit)
as_number to_number (Value.bool false) = some (pos 0)
as_number to_number (Value.num n) = some n
as_number to_number v = to_number v

-- A comparison is false at `undefined` and at NaN.
module _ (to_number : Value → Option ℤ) where
  compare_field : (ℤ → ℤ → Bool) → ConditionContext → String → ℤ → Bool
  compare_field test ctx path n = elim (get_field ctx.context path) [
    | none ↦ false
    | some v ↦ elim (as_number to_number v) [ none ↦ false | some m ↦ test m n ]
  ]

field_among : ConditionContext → String → Items → Bool
field_among ctx path xs = elim (get_field ctx.context path) [
  | none ↦ false
  | some v ↦ includes_value v xs
]

unfoldable mutual
  unfolding compare_field field_among has_status

  pub evaluate_condition : (Value → Option ℤ) → ConditionExpr → ConditionContext → Bool
  evaluate_condition to_number (eq path v) ctx =
      strict_eq_or_undefined (get_field ctx.context path) v
  evaluate_condition to_number (neq path v) ctx =
      not (strict_eq_or_undefined (get_field ctx.context path) v)
  evaluate_condition to_number (gt path n) ctx =
      compare_field to_number (λ a b. Int.lt b a) ctx path n
  evaluate_condition to_number (gte path n) ctx =
      compare_field to_number (λ a b. Int.le b a) ctx path n
  evaluate_condition to_number (lt path n) ctx = compare_field to_number Int.lt ctx path n
  evaluate_condition to_number (lte path n) ctx = compare_field to_number Int.le ctx path n
  evaluate_condition to_number (one_of path xs) ctx = field_among ctx path xs
  evaluate_condition to_number (has_tag tag) ctx = includes tag ctx.task.tags
  evaluate_condition to_number (hop_status hop status) ctx = has_status ctx.hop_states hop status
  evaluate_condition to_number (and_all cs) ctx = evaluate_every to_number cs ctx
  evaluate_condition to_number (or_any cs) ctx = evaluate_some to_number cs ctx
  evaluate_condition to_number (negate c) ctx = not (evaluate_condition to_number c ctx)
  evaluate_condition to_number always ctx = true
  evaluate_condition to_number never ctx = false

  pub evaluate_every : (Value → Option ℤ) → Conditions → ConditionContext → Bool
  evaluate_every to_number nil ctx = true
  evaluate_every to_number (cons c cs) ctx =
      evaluate_condition to_number c ctx && evaluate_every to_number cs ctx

  pub evaluate_some : (Value → Option ℤ) → Conditions → ConditionContext → Bool
  evaluate_some to_number nil ctx = false
  evaluate_some to_number (cons c cs) ctx =
      evaluate_condition to_number c ctx || evaluate_some to_number cs ctx
