-- ===== src/Tasks/Dependencies.antt =====
-- src/store/task-deps.ts. The depth-first search takes fuel, two more than the number of tasks that
-- the store holds.
pub mod Graph
pub mod Fuel
pub mod Search
pub mod Acyclic
pub mod Undo
use aof.Prelude.{
  ℕ, zero, suc, String, Bool, true, false, not, Option, none, some, List, [], ◌∷◌, ◌++◌, Dict,
  lookup, includes, if◌then◌else◌, ◌==◌, length,
}
use aof.Tasks.Schema.{TaskStatus, done, cancelled, one_of, Task}
use aof.Tasks.Store.{
  Store, Action, ◌>>=◌, ◌>>◌, pure, refuse_if, get_task, write_task, in_terminal_state,
  self_dependency, circular_dependency,
}

-- The dependencies of a task, none if the store does not hold it.
unfoldable pub deps_of : Store → String → List String
deps_of s id = elim (lookup id s) [ none ↦ [] | some t ↦ t.depends_on ]

-- The search returns whether it met `target`, and the visited set; `none` is out of fuel.
abbrev pub Search : Type 0
Search = List String → Option (Bool × List String)

-- The loop over the dependencies: it ends at the first that meets the target.
unfoldable pub search_each : (String → Search) → List String → Search
search_each dfs [] visited = some (false, visited)
search_each dfs (d ∷ ds) visited = elim (dfs d visited) [
  | none ↦ none
  | some (found, seen) ↦ if found then some (true, seen) else search_each dfs ds seen
]

unfoldable pub dfs : Store → String → ℕ → String → Search
unfolding search_each deps_of
dfs s target zero id visited = none
dfs s target (suc fuel) id visited =
    if id == target
    then some (true, visited)
    else if includes id visited
    then some (false, visited)
    else search_each (dfs s target fuel) (deps_of s id) (id ∷ visited)

abbrev answer : Option (Bool × List String) → Bool
answer none = true
answer (some (found, visited)) = found

unfoldable pub has_cycle : Store → String → String → Bool
unfolding dfs
has_cycle s task_id blocker_id = answer (dfs s task_id (suc (suc (length s))) blocker_id [])

unfoldable pub depend_on : ℕ → String → Task → Task
depend_on now blocker t = record t { depends_on = t.depends_on ++ blocker ∷ []; updated_at = now }

-- The test for a cycle reads the store as it is.
unfoldable pub check_cycle : String → String → Action (Unit {0})
unfolding has_cycle
check_cycle id blocker s = refuse_if (has_cycle s id blocker) circular_dependency s

unfoldable pub insert_dependency : ℕ → String → String → Task → Action Task
unfolding check_cycle write_task depend_on
insert_dependency now id blocker t = do
  check_cycle id blocker
  write_task (depend_on now blocker t)
  pure (depend_on now blocker t)

unfoldable pub add_dependency : ℕ → String → String → Action Task
unfolding get_task insert_dependency
add_dependency now id blocker = do
  t ← get_task id
  get_task blocker
  refuse_if (one_of t.status (done ∷ cancelled ∷ [])) (in_terminal_state t.status)
  refuse_if (id == blocker) self_dependency
  if includes blocker t.depends_on then pure t else insert_dependency now id blocker t

-- `splice(index, 1)` at the first occurrence.
unfoldable pub remove_first : String → List String → List String
remove_first d [] = []
remove_first d (x ∷ xs) = if x == d then xs else x ∷ remove_first d xs

unfoldable pub without_dependency : ℕ → String → Task → Task
unfolding remove_first
without_dependency now blocker t = record t {
  depends_on = remove_first blocker t.depends_on;
  updated_at = now;
}

unfoldable pub delete_dependency : ℕ → String → Task → Action Task
unfolding write_task without_dependency
delete_dependency now blocker t = do
  write_task (without_dependency now blocker t)
  pure (without_dependency now blocker t)

unfoldable pub remove_dependency : ℕ → String → String → Action Task
unfolding get_task delete_dependency
remove_dependency now id blocker = do
  t ← get_task id
  refuse_if (one_of t.status (done ∷ cancelled ∷ [])) (in_terminal_state t.status)
  if includes blocker t.depends_on then delete_dependency now blocker t else pure t
