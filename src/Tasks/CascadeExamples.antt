-- ===== src/Tasks/CascadeExamples.antt =====
-- Examples of errors, of a dependency taken back, and of the cascade of a completion.
use aof.Prelude.{true, none, some, [], ◌∷◌, lookup, includes, if◌then◌else◌, All, ◌↔◌, ◌≡◌, refl}
use aof.Tasks.Schema.{Task, backlog, ready, in_progress, done, blocked}
use aof.Tasks.Store.{Store, return}
use aof.Tasks.Lifecycle.{block_task}
use aof.Tasks.Dependencies.{add_dependency, remove_dependency, has_cycle, dfs, search_each, deps_of}
use aof.Tasks.Dependencies.Undo.{remove_dependency-add_dependency}
use aof.Tasks.Calls.{block, perform, perform_error}
use aof.Tasks.Calls.Errors.{perform_error_unchanged}
use aof.Tasks.Cascade.{CascadeResult, list_tasks, cascade_on_completion}
use aof.Tasks.Cascade.Listed.{IsDone, Awaits}
use aof.Tasks.Cascade.Promoting.{IsListed}
use aof.Tasks.Cascade.Promoted.{status_at, cascade_on_completion_lem}
use aof.Tasks.Sample.{board, board-WellFormed, task, build, lint, lint_stored, build_stored}

perform_error_unchanged_example : perform 300 "ship" (block "late") board ≡ board
unfolding perform_error block_task lookup
perform_error_unchanged_example =
    perform_error_unchanged 300 "ship" (block "late") board _ board-WellFormed refl

remove_dependency-add_dependency_example :
    (u v : Task) × (s1 s2 : Store) × (add_dependency 500 "lint" "build" board ≡ (return u, s1))
    × (remove_dependency 600 "lint" "build" s1 ≡ (return v, s2))
    × (lookup "lint" s2 ≡ some v)
    × (v ≡ record lint { updated_at = 600 })
unfolding has_cycle dfs search_each deps_of lookup
remove_dependency-add_dependency_example =
    remove_dependency-add_dependency 500 600 "lint" "build" board lint build lint_stored refl
      build_stored refl refl refl refl

-- `docs` waits for `code`, which is done; `demo` also waits for `data`, which is not.
abbrev released : Store
released =
    ("code", task "code" done none [])
    ∷ ("data", task "data" in_progress none [])
    ∷ ("docs", task "docs" backlog none ("code" ∷ []))
    ∷ ("demo", task "demo" blocked none ("code" ∷ "data" ∷ []))
    ∷ []

released-IsListed : IsListed released
unfolding list_tasks lookup
released-IsListed = (refl, (refl, (refl, (refl, tt))))

cascade_on_completion_lem_example :
    (r : CascadeResult) × (s' : Store) × (cascade_on_completion 80 "code" released ≡ (return r, s'))
    × ((includes "docs" r.promoted ≡ true) ↔ (
        (t : Task) × Awaits "code" (list_tasks released) "docs" t
        × All (IsDone (list_tasks released)) t.depends_on))
    × ((includes "docs" r.skipped ≡ true) ↔ (
        (t : Task) × Awaits "code" (list_tasks released) "docs" t
        × ¬ All (IsDone (list_tasks released)) t.depends_on))
    × (status_at s' "docs"
        ≡ (if includes "docs" r.promoted then some ready else status_at released "docs"))
cascade_on_completion_lem_example =
    cascade_on_completion_lem 80 "code" "docs" released released-IsListed
