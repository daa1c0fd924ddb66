-- ===== src/Scheduler/Circular.antt =====
-- src/dispatch/scheduler.ts: the search for circular dependencies of a poll. The stack is kept with its
-- newest task first. The search takes fuel, two more than the number of tasks in the map.
pub mod Returns
pub mod Marked
pub mod Settled
pub mod Complete
use aof.Prelude.{
  ℕ, zero, suc, String, Bool, true, false, Option, none, some, List, [], ◌∷◌, ◌++◌, Dict, insert,
  includes, length, if◌then◌else◌, ◌==◌,
}
use aof.Tasks.Schema.{Task}
use aof.Tasks.Store.{Store}
use aof.Tasks.Dependencies.{deps_of}

-- `new Map(allTasks.map(t => [t.frontmatter.id, t]))`
unfoldable pub task_map : List Task → Store → Store
task_map [] m = m
task_map (t ∷ ts) m = task_map ts (insert t.id t m)

-- `globalVisited` and `circularDeps`.
pub record Marks : Type 0 where
  pub visited : List String
  pub circular : List String

-- The part of the stack from a task on.
unfoldable pub cycle_from : String → List String → List String
cycle_from id [] = []
cycle_from id (x ∷ stack) = let rest = cycle_from id stack in if x == id then x ∷ [] else x ∷ rest

-- `circularDeps.add(id)`
abbrev pub add_one : String → List String → List String
add_one x marked = if includes x marked then marked else marked ++ x ∷ []

unfoldable pub add_all : List String → List String → List String
add_all [] marked = marked
add_all (x ∷ xs) marked = add_all xs (add_one x marked)

abbrev pub Visit : Type 0
Visit = Marks → Option Marks

unfoldable pub detect_each : (String → Visit) → List String → Visit
detect_each f [] m = some m
detect_each f (d ∷ ds) m = elim (f d m) [ none ↦ none | some n ↦ detect_each f ds n ]

unfoldable pub detect_circular_deps : Store → ℕ → List String → String → Visit
unfolding cycle_from add_all detect_each deps_of
detect_circular_deps s zero stack id m = none
detect_circular_deps s (suc fuel) stack id m =
    if includes id stack
    then some (record m { circular = add_all (cycle_from id stack) m.circular })
    else if includes id m.visited
    then some m
    else detect_each (detect_circular_deps s fuel (id ∷ stack)) (deps_of s id)
        (record m { visited = id ∷ m.visited })

unfoldable pub start_at : Store → ℕ → Task → Visit
unfolding detect_circular_deps
start_at s fuel t m =
    if includes t.id m.visited then some m else detect_circular_deps s fuel [] t.id m

unfoldable pub detect_all : Store → ℕ → List Task → Visit
unfolding start_at
detect_all s fuel [] m = some m
detect_all s fuel (t ∷ ts) m = elim (start_at s fuel t m) [
  | none ↦ none
  | some n ↦ detect_all s fuel ts n
]

-- The set after the loop; `none` is out of fuel.
unfoldable pub circular_deps_of : List Task → Option Marks
unfolding detect_all task_map
circular_deps_of all =
    let s = task_map all [] in
    detect_all s (suc (suc (length s))) all (record { visited = []; circular = [] })
