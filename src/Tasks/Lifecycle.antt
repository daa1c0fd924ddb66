-- ===== src/Tasks/Lifecycle.antt =====
-- src/store/task-lifecycle.ts: block, unblock and cancel.
pub mod Blocking
use aof.Prelude.{ℕ, String, not, Option, none, some, [], ◌∷◌, if◌then◌else◌, ◌==◌}
use aof.Tasks.Schema.{ready, blocked, done, cancelled, deadletter, same, one_of, Task, Metadata}
use aof.Tasks.Store.{
  Action, ◌>>=◌, ◌>>◌, pure, refuse_if, get_task, write_task, transition_task, no_patch,
  already_blocked, in_terminal_state, is_not_blocked,
}

abbrev pub set_block_reason : Option String → Metadata → Metadata
set_block_reason r m = record m { block_reason = r }

unfoldable pub block_task : ℕ → String → String → Action Task
unfolding get_task write_task
block_task now id reason = do
  t ← get_task id
  refuse_if (same t.status blocked) already_blocked
  refuse_if (one_of t.status (done ∷ cancelled ∷ deadletter ∷ [])) (in_terminal_state t.status)
  write_task (record t { metadata = set_block_reason (some reason) t.metadata })
  transition_task now id blocked no_patch

abbrev pub clear_block : Metadata → Metadata
clear_block m = record m { block_reason = none; retry_count = none }

unfoldable pub unblock_task : ℕ → String → Action Task
unfolding get_task write_task
unblock_task now id = do
  t ← get_task id
  refuse_if (not (same t.status blocked)) (is_not_blocked t.status)
  write_task (record t { metadata = clear_block t.metadata })
  transition_task now id ready no_patch

-- `if (reason)`: an empty text is no reason.
abbrev set_cancellation : Option String → Metadata → Metadata
set_cancellation none m = m
set_cancellation (some r) m = if r == "" then m else record m { cancellation_reason = some r }

unfoldable pub cancelled_task : ℕ → Option String → Task → Task
cancelled_task now reason t = record t {
  status = cancelled;
  lease = none;
  updated_at = now;
  last_transition_at = now;
  metadata = set_cancellation reason t.metadata;
}

-- `cancelTask` writes the task itself: it does not go through `transitionTask`.
unfoldable pub cancel_task : ℕ → String → Option String → Action Task
unfolding get_task write_task cancelled_task
cancel_task now id reason = do
  t ← get_task id
  refuse_if (one_of t.status (done ∷ cancelled ∷ [])) (in_terminal_state t.status)
  write_task (cancelled_task now reason t)
  pure (cancelled_task now reason t)
