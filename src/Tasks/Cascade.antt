-- ===== src/Tasks/Cascade.antt =====
-- src/dispatch/dep-cascader.ts. The event goes to a log.
pub mod Promoting
pub mod Listed
pub mod Promoted
use aof.Prelude.{
  ℕ, String, Bool, true, false, ◌&&◌, ◌||◌, Option, none, some, List, [], ◌∷◌, ◌++◌, if◌then◌else◌,
  every, includes, concat,
}
use aof.Tasks.Schema.{TaskStatus, backlog, ready, blocked, done, same, one_of, Task}
use aof.Tasks.Store.{Store, Action, ◌>>=◌, ◌>>◌, pure, transition_task, no_patch}
use aof.Tasks.Lifecycle.{block_task}
use aof.Tasks.Promotion.{find_task}

pub record CascadeResult : Type 0 where
  pub promoted : List String
  pub blocked : List String
  pub skipped : List String

-- `store.list()`
unfoldable pub list_tasks : Store → List Task
list_tasks [] = []
list_tasks ((k, t) ∷ s) = t ∷ list_tasks s

-- The direct dependents of a task, of two statuses.
unfoldable pub dependents : String → List TaskStatus → List Task → List Task
dependents id sts [] = []
dependents id sts (t ∷ ts) =
    let rest = dependents id sts ts in
    if includes id t.depends_on && one_of t.status sts then t ∷ rest else rest

-- Every dependency is done, in the listing.
unfoldable pub all_done : List Task → Task → Bool
unfolding find_task
all_done all t =
    every (λ d. elim (find_task d all) [ none ↦ false | some u ↦ same u.status done ]) t.depends_on

unfoldable pub promote_each : ℕ → List Task → List Task → CascadeResult → Action CascadeResult
promote_each now all [] r = pure r
promote_each now all (t ∷ ts) r = elim (all_done all t) [
  | true ↦ transition_task now t.id ready no_patch >>= λ _.
      promote_each now all ts (record r { promoted = r.promoted ++ t.id ∷ [] })
  | false ↦ promote_each now all ts (record r { skipped = r.skipped ++ t.id ∷ [] })
]

abbrev pub nothing_done : CascadeResult
nothing_done = record { promoted = []; blocked = []; skipped = [] }

unfoldable pub cascade_on_completion : ℕ → String → Action CascadeResult
unfolding promote_each dependents list_tasks
cascade_on_completion now id s =
    promote_each now (list_tasks s)
      (dependents id (backlog ∷ TaskStatus.blocked ∷ []) (list_tasks s)) nothing_done s

unfoldable pub block_each : ℕ → String → List Task → CascadeResult → Action CascadeResult
block_each now reason [] r = pure r
block_each now reason (t ∷ ts) r = block_task now t.id reason >>= λ _.
    block_each now reason ts (record r { blocked = r.blocked ++ t.id ∷ [] })

unfoldable pub cascade_on_block : ℕ → String → Action CascadeResult
unfolding block_each dependents list_tasks
cascade_on_block now id s =
    block_each now (concat "upstream blocked: " id)
      (dependents id (backlog ∷ ready ∷ []) (list_tasks s)) nothing_done s
