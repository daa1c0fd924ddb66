-- ===== src/Protocol/Handoff.antt =====
-- A handoff, and the answer of the agent that receives it.
use aof.Prelude.{
  ℕ, String, Bool, true, false, some, lookup, insert, lookup-insert_self, ◌==◌, ◌≡◌, refl, ap, ◌∙◌,
  arith, eq_iff, Bool-cases, inl, inr,
}
use aof.Tasks.Schema.{Task, TaskLease}
use aof.Tasks.Store.{Store, Answer, return, write_task}
use aof.Tasks.Failures.{or_zero}
use aof.Protocol.{resolve_authorized_agent, check_authorization}
use aof.Protocol.Router.{
  HandoffRequestPayload, if_stored, delegated, handle_handoff_request, handle_handoff_ack,
}

-- The agent that holds a task: of its lease, or the one that it is routed to.
check_authorization-eq :
    (t : Task) (agent from : String)
    → resolve_authorized_agent t ≡ some agent
    → (agent == "") ≡ false
    → check_authorization from t ≡ (from == agent)
unfolding check_authorization
check_authorization-eq t agent from h n = rw (h, n) refl

check_authorization_other :
    (t : Task) (agent from : String)
    → resolve_authorized_agent t ≡ some agent
    → (from == agent) ≡ false
    → check_authorization from t ≡ false
unfolding check_authorization
check_authorization_other t agent from h other = elim (Bool-cases (agent == "")) [
  | inl empty ↦ rw (h, empty) refl
  | inr given ↦ check_authorization-eq t agent from h given ∙ other
]

module _ (now : ℕ) (id from : String) (p : HandoffRequestPayload) (s : Store) (child parent : Task)
    (matches : p.task_id ≡ id) (found : lookup id s ≡ some child) (keyed : child.id ≡ id)
    (may : check_authorization from child ≡ true)
    (found_parent : lookup p.parent_task_id s ≡ some parent)
    (top : or_zero parent.metadata.delegation_depth ≡ 0) where
  received : Task
  received = delegated now 1 p.to_agent_id child

  handed : Store
  handed = insert child.id received s

  request_writes : handle_handoff_request now id from p s ≡ (return tt, handed)
  unfolding handed received handle_handoff_request if_stored write_task
  request_writes =
      let same_id : (p.task_id == id) ≡ true = ground (arith, eq_iff p.task_id id) in
      rw (handle_handoff_request, same_id, if_stored, found, may, found_parent, top) refl

  child_handed : lookup id handed ≡ some received
  unfolding handed received
  child_handed = ap (λ k. lookup id (insert k received s)) keyed ∙ lookup-insert_self id received s

-- What the answer of the receiver to a handoff of the sender leaves, with its own answer.
abbrev pub answered :
    ℕ → ℕ → String → String → HandoffRequestPayload → Bool → Store → Answer (Unit {0}) × Store
answered now later id from p accepted s =
    handle_handoff_ack later id p.to_agent_id accepted (handle_handoff_request now id from p s).1

-- The holder of the lease of a stored task hands it to another agent, and names a stored parent that was not
-- delegated. The answer of that agent, be it yes or no, changes nothing: the lease still names the sender.
pub handoff_ack_ignored :
    (now later : ℕ) (id from : String) (p : HandoffRequestPayload) (s : Store) (child parent : Task)
    (l : TaskLease) (accepted : Bool)
    → p.task_id ≡ id
    → lookup id s ≡ some child
    → child.id ≡ id
    → check_authorization from child ≡ true
    → lookup p.parent_task_id s ≡ some parent
    → or_zero parent.metadata.delegation_depth ≡ 0
    → child.lease ≡ some l
    → (p.to_agent_id == l.agent) ≡ false
    → answered now later id from p accepted s
      ≡ (return tt, (handle_handoff_request now id from p s).1)
unfolding handle_handoff_ack if_stored received delegated resolve_authorized_agent
handoff_ack_ignored now later id from p s child parent l accepted m found keyed may fp top held
      other =
    let got = received now id from p s child parent m found keyed may fp top in
    let at = child_handed now id from p s child parent m found keyed may fp top in
    let written = request_writes now id from p s child parent m found keyed may fp top in
    let no : check_authorization p.to_agent_id got ≡ false =
      check_authorization_other got l.agent p.to_agent_id (rw held refl) other in
    rw written (rw (handle_handoff_ack, if_stored, at, no) refl)
