-- ===== src/Protocol/Lock.antt =====
-- src/protocol/task-lock.ts: the chain of promises of each task. A call waits until the promise that was in
-- the map has settled, runs, finishes with success or an error, and is released when the
-- callback of `finally` has run, which settles its promise.
pub mod Chain
pub mod Freed
pub mod Made
pub mod Fifo
use aof.Prelude.{
  ℕ, suc, String, Bool, true, false, not, ◌&&◌, Option, none, some, List, [], ◌∷◌, Dict, lookup,
  insert, if◌then◌else◌, ◌==◌, eqb,
}

pub data Phase : Type 0 where
  waiting running released : Phase
  settled : Bool → Phase

pub record Call : Type 0 where
  pub task_id : String
  pub before : Option ℕ
  pub phase : Phase

-- The calls are numbered in the order in which they were made; the map holds the number of the last call.
pub record LockManager : Type 0 where
  pub locks : Dict ℕ
  pub calls : ℕ → Option Call
  pub next : ℕ

abbrev pub no_locks : LockManager
no_locks = record { locks = []; calls = λ n. none; next = 0 }

unfoldable pub delete : String → Dict ℕ → Dict ℕ
delete key [] = []
delete key ((k, n) ∷ rest) =
    let others = delete key rest in if k == key then others else (k, n) ∷ others

abbrev pub put : ℕ → Call → (ℕ → Option Call) → ℕ → Option Call
put n c calls i = if eqb i n then some c else calls i

abbrev pub is_released : Phase → Bool
is_released released = true
is_released _ = false

abbrev pub has_started : Phase → Bool
has_started waiting = false
has_started _ = true

-- `withLock`, until its first wait.
unfoldable pub with_lock : String → LockManager → LockManager
with_lock task m = record {
  locks = insert task m.next m.locks;
  calls =
      put m.next (record { task_id = task; before = lookup task m.locks; phase = waiting }) m.calls;
  next = suc m.next;
}

-- The promise that a call waits for has settled.
abbrev pub may_start : LockManager → Option ℕ → Bool
may_start m none = true
may_start m (some n) = elim (m.calls n) [ none ↦ false | some c ↦ is_released c.phase ]

abbrev pub in_phase : ℕ → Call → Phase → LockManager → LockManager
in_phase n c phase m = record m { calls = put n (record c { phase = phase }) m.calls }

abbrev pub is_last : ℕ → Option ℕ → Bool
is_last n none = false
is_last n (some last) = eqb last n

-- `if (this.locks.get(taskId) === nextLock) this.locks.delete(taskId)`
abbrev pub clean_up : ℕ → String → LockManager → LockManager
clean_up n task m =
    if is_last n (lookup task m.locks) then record m { locks = delete task m.locks } else m

-- What can happen: a call is made, starts to run, finishes, or is released.
pub data Event : Type 0 where
  called : String → Event
  started : ℕ → Event
  ended : ℕ → Bool → Event
  freed : ℕ → Event

abbrev pub start_call : ℕ → Call → Phase → LockManager → LockManager
start_call n c waiting m = if may_start m c.before then in_phase n c running m else m
start_call n c _ m = m

abbrev pub end_call : ℕ → Call → Phase → Bool → LockManager → LockManager
end_call n c running ok m = in_phase n c (settled ok) m
end_call n c _ ok m = m

abbrev pub free_call : ℕ → Call → Phase → LockManager → LockManager
free_call n c (settled ok) m = clean_up n c.task_id (in_phase n c released m)
free_call n c _ m = m

abbrev pub on_call : ℕ → (Call → LockManager → LockManager) → LockManager → LockManager
on_call n f m = elim (m.calls n) [ none ↦ m | some c ↦ f c m ]

-- An event that cannot happen changes nothing.
unfoldable pub happen : Event → LockManager → LockManager
unfolding with_lock
happen (called task) m = with_lock task m
happen (started n) m = on_call n (λ c. start_call n c c.phase) m
happen (ended n ok) m = on_call n (λ c. end_call n c c.phase ok) m
happen (freed n) m = on_call n (λ c. free_call n c c.phase) m

unfoldable pub run_events : List Event → LockManager → LockManager
unfolding happen
run_events [] m = m
run_events (e ∷ es) m = run_events es (happen e m)
