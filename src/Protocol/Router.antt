-- ===== src/Protocol/Router.antt =====
-- src/protocol/router.ts: the handlers of the messages of agents, and their routing to a project. The lock of
-- a task is in Protocol/Lock. The log, the notifications, the run results and artifacts, and the files of a handoff are left out; the
-- text of a time and the digest of a text are arguments.
use aof.Prelude.{
  ℕ, ◌+◌, String, Bool, true, false, not, ◌&&◌, ◌||◌, Option, none, some, [], ◌∷◌, Dict, lookup,
  insert, if◌then◌else◌, ◌==◌, ltb,
}
use aof.Tasks.Schema.{TaskStatus, blocked, same, Task, TaskRouting, Metadata}
use aof.Tasks.Store.{Store, Answer, return, Action, ◌>>=◌, ◌>>◌, pure, get_task, write_task}
use aof.Tasks.Failures.{or_zero}
use aof.Tasks.Cascade.{cascade_on_completion, cascade_on_block}
use aof.Handler.Completion.{CompletionOutcome}
use aof.Protocol.{transition_if_valid, apply_completion_outcome, check_authorization}
use aof.Protocol.Formatters.{
  StatusUpdatePayload, should_append_work_log, build_work_log_entry, append_section,
}

pub record HandoffRequestPayload : Type 0 where
  pub task_id : String
  pub parent_task_id : String
  pub to_agent_id : String

pub data Message : Type 0 where
  completion_report : CompletionOutcome → Message
  status_update : StatusUpdatePayload → Message
  handoff_request : HandoffRequestPayload → Message
  handoff_accepted handoff_rejected : Message
  unknown : String → Message

pub record ProtocolEnvelope : Type 0 where
  pub project_id : String
  pub task_id : String
  pub from_agent : String
  pub message : Message

-- What the router is built with; `logging` says whether it has a logger.
pub record ProtocolRouter : Type 0 where
  pub cascade_blocks : Bool
  pub logging : Bool
  pub iso : ℕ → String
  pub content_hash : String → String

abbrev pub nothing : Action (Unit {0})
nothing = pure tt

-- `const task = await store.get(id); if (!task) return;`
unfoldable pub if_stored : String → (Task → Action (Unit {0})) → Action (Unit {0})
if_stored id f s = elim (lookup id s) [ none ↦ (return tt, s) | some t ↦ f t s ]

-- `try { await action } catch { }`
abbrev pub attempt : {A : Type 0} → Action A → Action (Unit {0})
attempt m s = let (answer, after) = m s in (return tt, after)

abbrev is_done_outcome : CompletionOutcome → Bool
is_done_outcome CompletionOutcome.done = true
is_done_outcome _ = false

-- The cascade is attempted only with a logger.
unfoldable pub cascade_after : ProtocolRouter → ℕ → String → CompletionOutcome → Action (Unit {0})
unfolding cascade_on_completion
cascade_after r now id outcome =
    if is_done_outcome outcome && r.logging then attempt (cascade_on_completion now id) else nothing

unfoldable pub handle_completion_report :
    ProtocolRouter → ℕ → String → String → CompletionOutcome → Action (Unit {0})
unfolding if_stored check_authorization apply_completion_outcome cascade_after
handle_completion_report r now id from outcome = if_stored id λ t.
    if not (check_authorization from t)
    then nothing
    else apply_completion_outcome now t outcome >> cascade_after r now id outcome

-- `store.updateBody`
unfoldable pub update_body : (String → String) → ℕ → String → String → Action Task
unfolding get_task write_task
update_body content_hash now id body = do
  t ← get_task id
  write_task (record t { body = body; content_hash = some (content_hash body); updated_at = now })
  pure (record t { body = body; content_hash = some (content_hash body); updated_at = now })

unfoldable pub append_work_log : ProtocolRouter → ℕ → Task → StatusUpdatePayload → Action Task
unfolding build_work_log_entry append_section update_body
append_work_log r now t p = elim (build_work_log_entry (r.iso now) p) [
  | none ↦ pure t
  | some entry ↦ update_body r.content_hash now t.id (append_section t.body "Work Log" (entry ∷ []))
]

-- The transition that the payload asks for, if any.
unfoldable pub update_status : ℕ → Task → Option TaskStatus → Action Task
unfolding transition_if_valid
update_status now t none = pure t
update_status now t (some target) =
    if same t.status target then pure t else transition_if_valid now t target

abbrev cascades_block : ProtocolRouter → Task → Task → Bool
cascades_block r before after =
    not (same before.status after.status) && (same after.status blocked && r.cascade_blocks)

unfoldable pub cascade_blocked : ProtocolRouter → ℕ → Task → Task → Action (Unit {0})
unfolding cascade_on_block
cascade_blocked r now before after =
    if cascades_block r before after
    then (cascade_on_block now after.id >>= λ result. nothing)
    else nothing

unfoldable pub log_work : ProtocolRouter → ℕ → Task → Task → StatusUpdatePayload → Action (Unit {0})
unfolding append_work_log should_append_work_log
log_work r now before after p =
    if same before.status after.status && should_append_work_log p
    then (append_work_log r now after p >>= λ t. nothing)
    else nothing

-- There is no check of who sends it.
unfoldable pub handle_status_update :
    ProtocolRouter → ℕ → String → StatusUpdatePayload → Action (Unit {0})
unfolding if_stored update_status cascade_blocked log_work
handle_status_update r now id p = if_stored id λ before.
    update_status now before p.status >>= λ after.
    cascade_blocked r now before after >> log_work r now before after p

abbrev routed_to : String → TaskRouting → TaskRouting
routed_to agent r = record r { agent = some agent }

abbrev pub deeper : ℕ → Metadata → Metadata
deeper depth m = record m { delegation_depth = some depth }

unfoldable pub delegated : ℕ → ℕ → String → Task → Task
delegated now depth agent t = record t {
  metadata = deeper depth t.metadata;
  routing = routed_to agent t.routing;
  updated_at = now;
}

unfoldable pub handle_handoff_request :
    ℕ → String → String → HandoffRequestPayload → Action (Unit {0})
unfolding if_stored check_authorization delegated write_task
handle_handoff_request now id from p =
    if not (p.task_id == id)
    then nothing
    else if_stored id λ child.
      if not (check_authorization from child)
      then nothing
      else if_stored p.parent_task_id λ parent.
        let depth = or_zero parent.metadata.delegation_depth in
        if ltb 1 (depth + 1)
        then nothing
        else write_task (delegated now (depth + 1) p.to_agent_id child)

-- `accepted` only logs.
unfoldable pub handle_handoff_ack : ℕ → String → String → Bool → Action (Unit {0})
unfolding if_stored check_authorization transition_if_valid
handle_handoff_ack now id from accepted = if_stored id λ child.
    if not (check_authorization from child) || accepted
    then nothing
    else transition_if_valid now child blocked >>= λ t. nothing

-- The handler of each type of message; another type has none.
unfoldable pub handle : ProtocolRouter → ℕ → String → String → Message → Action (Unit {0})
unfolding handle_completion_report handle_status_update handle_handoff_request handle_handoff_ack
handle r now id from (completion_report outcome) = handle_completion_report r now id from outcome
handle r now id from (status_update p) = handle_status_update r now id p
handle r now id from (handoff_request p) = handle_handoff_request now id from p
handle r now id from handoff_accepted = handle_handoff_ack now id from true
handle r now id from handoff_rejected = handle_handoff_ack now id from false
handle r now id from (unknown type) = nothing

-- The router's own store, or with a resolver the stores of projects.
pub record Stores : Type 0 where
  pub own : Store
  pub projects : Option (Dict Store)

abbrev pub resolve_project_store : Stores → String → Option Store
resolve_project_store w project = elim w.projects [ none ↦ some w.own | some m ↦ lookup project m ]

abbrev pub put_store : Stores → String → Store → Stores
put_store w project s = elim w.projects [
  | none ↦ record w { own = s }
  | some m ↦ record w { projects = some (insert project s m) }
]

-- A message for no known project, or for no task of it, is dropped.
unfoldable pub route : ProtocolRouter → ℕ → ProtocolEnvelope → Stores → Answer (Unit {0}) × Stores
unfolding handle
route r now e w = elim (resolve_project_store w e.project_id) [
  | none ↦ (return tt, w)
  | some s ↦ elim (lookup e.task_id s) [
    | none ↦ (return tt, w)
    | some t ↦
        let (answer, after) = handle r now e.task_id e.from_agent e.message s in
        (answer, put_store w e.project_id after)
  ]
]
