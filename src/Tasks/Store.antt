-- ===== src/Tasks/Store.antt =====
-- src/store/task-store.ts and src/store/task-mutations.ts: the store as a map from identifiers to the
-- tasks on disk. `get` reads a fresh copy; a change counts once it is written. The clock is an
-- argument, which stands still during one operation. Left out: the file system's failures, the
-- event log and the hooks.
use aof.Prelude.{
  ℕ, String, Bool, true, false, none, some, [], ◌∷◌, Dict, lookup, insert, if◌then◌else◌, ◌≡◌,
  arith,
}
use aof.Tasks.Schema.{
  TaskStatus, backlog, ready, done, same, one_of, is_valid_transition, Task, Metadata,
}

abbrev pub Store : Type 0
Store = Dict Task

-- The errors that the operations throw.
pub data StoreError : Type 0 where
  not_found : String → StoreError
  invalid_transition : TaskStatus → TaskStatus → StoreError
  already_blocked : StoreError
  in_terminal_state : TaskStatus → StoreError
  is_not_blocked : TaskStatus → StoreError
  cannot_lease : TaskStatus → StoreError
  leased_to : String → StoreError
  no_lease : StoreError
  renewals_exhausted : ℕ → StoreError
  self_dependency : StoreError
  circular_dependency : StoreError

pub data Answer (A : Type 0) : Type 0 where
  return : A → Answer A
  throw : StoreError → Answer A

-- What was written before an error stays written.
abbrev pub Action : Type 0 → Type 0
Action A = Store → Answer A × Store

abbrev pub and_then : {A B : Type 0} → Answer A → (A → Action B) → Action B
and_then (return a) f = f a
and_then (throw e) f = λ s. (throw e, s)

infixl 5 ◌>>=◌ ◌>>◌
abbrev pub ◌>>=◌ : {A B : Type 0} → Action A → (A → Action B) → Action B
m >>= f = λ s. let (answer, after) = m s in and_then answer f after

abbrev pub ◌>>◌ : {A B : Type 0} → Action A → Action B → Action B
m >> n = m >>= λ _. n

abbrev pub pure : {A : Type 0} → A → Action A
pure a s = (return a, s)

abbrev pub fail : {A : Type 0} → StoreError → Action A
fail e s = (throw e, s)

-- `if (test) throw error`
abbrev pub refuse_if : Bool → StoreError → Action (Unit {0})
refuse_if true e = fail e
refuse_if false e = pure tt

-- `const task = await store.get(id); if (!task) throw new Error(...)`
unfoldable pub get_task : String → Action Task
get_task id s = elim (lookup id s) [ none ↦ (throw (not_found id), s) | some t ↦ (return t, s) ]

-- `writeFileAtomic(task.path, serializeTask(task))`
unfoldable pub write_task : Task → Action (Unit {0})
write_task t s = (return tt, insert t.id t s)

-- The statuses at which a transition drops the lease.
abbrev pub clears_lease : TaskStatus → Bool
clears_lease to = one_of to (done ∷ ready ∷ backlog ∷ [])

unfoldable pub transitioned : ℕ → TaskStatus → (Metadata → Metadata) → Task → Task
transitioned now to patch t = record t {
  status = to;
  lease = if clears_lease to then none else t.lease;
  updated_at = now;
  last_transition_at = now;
  metadata = patch t.metadata;
}

-- The body of `transitionTask` once the task is read.
unfoldable pub settle_transition : ℕ → TaskStatus → (Metadata → Metadata) → Task → Action Task
unfolding write_task transitioned
settle_transition now to patch t =
    if same t.status to
    then pure t
    else if is_valid_transition t.status to
    then write_task (transitioned now to patch t) >> pure (transitioned now to patch t)
    else fail (invalid_transition t.status to)

-- `transitionTask`; `patch` is the spread of `opts.metadataPatch`.
unfoldable pub transition_task : ℕ → String → TaskStatus → (Metadata → Metadata) → Action Task
unfolding get_task settle_transition
transition_task now id to patch = do t ← get_task id; settle_transition now to patch t

abbrev pub no_patch : Metadata → Metadata
no_patch m = m

-- A valid transition returns the task that it moved, and writes it.
pub transition_returns :
    (now : ℕ) (id : String) (to : TaskStatus) (patch : Metadata → Metadata) (s : Store) (t : Task)
    → lookup id s ≡ some t
    → same t.status to ≡ false
    → is_valid_transition t.status to ≡ true
    → transition_task now id to patch s
      ≡ (return (transitioned now to patch t), insert t.id (transitioned now to patch t) s)
unfolding transition_task get_task settle_transition write_task
transition_returns now id to patch s t found moves valid = ground arith
