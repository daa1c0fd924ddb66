-- ===== src/Tasks/Promotion.antt =====
-- src/dispatch/promotion.ts
use aof.Prelude.{
  ℕ, String, Bool, false, not, ◌||◌, Option, none, some, List, [], ◌∷◌, Dict, lookup, if◌then◌else◌,
  ◌==◌, find, every,
}
use aof.Tasks.Schema.{Task, TaskRouting, done, same}
use aof.Tasks.Lease.{is_lease_active}

-- The answer, with the reason of a refusal.
pub data Eligibility : Type 0 where
  eligible : Eligibility
  missing_dependency : String → Eligibility
  waiting_on_dependency : String → Eligibility
  waiting_on_subtasks no_target active_lease : Eligibility

-- `allTasks.find(t => t.frontmatter.id === id)`
unfoldable pub find_task : String → List Task → Option Task
find_task id ts = find (λ t. t.id == id) ts

-- The loop over the dependencies: the first that is missing or not done.
unfoldable pub first_unmet : List Task → List String → Option Eligibility
unfolding find_task
first_unmet all [] = none
first_unmet all (d ∷ ds) = elim (find_task d all) [
  | none ↦ some (missing_dependency d)
  | some t ↦ if same t.status done then first_unmet all ds else some (waiting_on_dependency d)
]

-- A text that is there and not empty.
abbrev pub truthy : Option String → Bool
truthy none = false
truthy (some s) = not (s == "")

abbrev pub has_target : TaskRouting → Bool
has_target r = truthy r.agent || truthy r.role || truthy r.team

-- `childrenByParent.get(id) ?? []`
abbrev pub children_of : Dict (List Task) → String → List Task
children_of m id = elim (lookup id m) [ none ↦ [] | some ts ↦ ts ]

unfoldable pub check_promotion_eligibility : ℕ → Task → List Task → Dict (List Task) → Eligibility
unfolding first_unmet is_lease_active
check_promotion_eligibility now t all children = elim (first_unmet all t.depends_on) [
  | some refusal ↦ refusal
  | none ↦
      if not (every (λ c. same c.status done) (children_of children t.id))
      then waiting_on_subtasks
      else if not (has_target t.routing)
      then no_target
      else if is_lease_active now t.lease
      then active_lease
      else eligible
]
