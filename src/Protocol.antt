-- ===== src/Protocol.antt =====
-- src/protocol/completion-utils.ts and src/protocol/router-helpers.ts: what a completion does to the status
-- of a task, and who may report it. The messages to the log are left out.

mod Examples
pub mod Formatters
pub mod Router
pub mod Outcome
pub mod Authority
pub mod Shallow
pub mod Delegation
pub mod Handoff
pub mod Lock
use aof.Prelude.{
  ℕ, String, Bool, true, false, not, ◌||◌, Option, none, some, List, [], ◌∷◌, if◌then◌else◌, ◌==◌,
}
use aof.Tasks.Schema.{TaskStatus, same, is_valid_transition, Task, TaskLease}
use aof.Tasks.Store.{Action, ◌>>=◌, pure, transition_task, no_patch}
use aof.Throttle.{named}
use aof.Handler.Completion.{CompletionOutcome}

-- `metadata?.reviewRequired !== false`
abbrev pub requires_review : Option Bool → Bool
requires_review none = true
requires_review (some b) = b

abbrev pub review_then_done : Bool → List TaskStatus
review_then_done true = TaskStatus.review ∷ []
review_then_done false = TaskStatus.review ∷ TaskStatus.done ∷ []

unfoldable pub resolve_completion_transitions : Task → CompletionOutcome → List TaskStatus
resolve_completion_transitions t CompletionOutcome.done =
    if same t.status TaskStatus.done
    then []
    else review_then_done (requires_review t.metadata.review_required)
resolve_completion_transitions t CompletionOutcome.blocked = TaskStatus.blocked ∷ []
resolve_completion_transitions t CompletionOutcome.needs_review = TaskStatus.review ∷ []
resolve_completion_transitions t CompletionOutcome.partial = TaskStatus.review ∷ []

-- `transitionTask` of the router: a transition that is not valid is passed over.
unfoldable pub transition_if_valid : ℕ → Task → TaskStatus → Action Task
unfolding transition_task
transition_if_valid now t to =
    if same t.status to || not (is_valid_transition t.status to)
    then pure t
    else transition_task now t.id to no_patch

unfoldable pub apply_each : ℕ → List TaskStatus → Task → Action (Unit {0})
unfolding transition_if_valid
apply_each now [] current = pure tt
apply_each now (to ∷ rest) current =
    transition_if_valid now current to >>= λ after. apply_each now rest after

unfoldable pub apply_completion_outcome : ℕ → Task → CompletionOutcome → Action (Unit {0})
unfolding apply_each resolve_completion_transitions
apply_completion_outcome now t outcome = apply_each now (resolve_completion_transitions t outcome) t

-- `lease?.agent ?? routing?.agent`
unfoldable pub resolve_authorized_agent : Task → Option String
resolve_authorized_agent t = elim t.lease [ none ↦ t.routing.agent | some l ↦ some l.agent ]

abbrev is_sender : String → Option String → Bool
is_sender from none = false
is_sender from (some agent) = from == agent

-- An empty text is no agent.
unfoldable pub check_authorization : String → Task → Bool
unfolding resolve_authorized_agent
check_authorization from t = is_sender from (named (resolve_authorized_agent t))
