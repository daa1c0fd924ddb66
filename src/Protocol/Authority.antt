-- ===== src/Protocol/Authority.antt =====
-- What a message of an agent that does not hold the task can do.
use aof.Prelude.{
  ℕ, String, Bool, true, false, none, some, lookup, lookup-insert, ◌==◌, ◌≡◌, ◌≢◌, refl, ap, ◌∙◌,
  arith, eq_iff, Bool-cases, Option-cases, inl, inr,
}
use aof.Tasks.Schema.{Task, TaskLease}
use aof.Tasks.Store.{Store, Answer, return}
use aof.Handler.Completion.{CompletionOutcome}
use aof.Protocol.{check_authorization, resolve_authorized_agent}
use aof.Protocol.Router.{
  ProtocolRouter, ProtocolEnvelope, HandoffRequestPayload, Message, completion_report,
  status_update, handoff_request, handoff_accepted, handoff_rejected, unknown, if_stored,
  handle_completion_report, handle_handoff_request, handle_handoff_ack, handle, route, Stores,
  resolve_project_store, put_store,
}

abbrev is_status_update : Message → Bool
is_status_update (status_update p) = true
is_status_update _ = false

module _ (r : ProtocolRouter) (now : ℕ) (s : Store) (t : Task) (from id : String)
    (found : lookup id s ≡ some t) (stranger : check_authorization from t ≡ false) where
  report_refused :
      (outcome : CompletionOutcome)
      → handle_completion_report r now id from outcome s ≡ (return tt, s)
  unfolding handle_completion_report if_stored
  report_refused outcome = rw (handle_completion_report, if_stored, found, stranger) refl

  ack_refused : (accepted : Bool) → handle_handoff_ack now id from accepted s ≡ (return tt, s)
  unfolding handle_handoff_ack if_stored
  ack_refused accepted = rw (handle_handoff_ack, if_stored, found, stranger) refl

  request_refused :
      (p : HandoffRequestPayload) → handle_handoff_request now id from p s ≡ (return tt, s)
  unfolding handle_handoff_request if_stored
  request_refused p = elim (Bool-cases (p.task_id == id)) [
    | inl e ↦ rw (handle_handoff_request, e, if_stored, found, stranger) refl
    | inr e ↦ rw (handle_handoff_request, e) refl
  ]

handle_refused :
    (r : ProtocolRouter) (now : ℕ) (s : Store) (t : Task) (from id : String) (m : Message)
    → lookup id s ≡ some t
    → check_authorization from t ≡ false
    → is_status_update m ≡ false
    → handle r now id from m s ≡ (return tt, s)
unfolding handle
handle_refused r now s t from id (completion_report outcome) found stranger other =
    report_refused r now s t from id found stranger outcome
handle_refused r now s t from id (status_update p) found stranger other = cc
handle_refused r now s t from id (handoff_request p) found stranger other =
    request_refused r now s t from id found stranger p
handle_refused r now s t from id handoff_accepted found stranger other =
    ack_refused r now s t from id found stranger true
handle_refused r now s t from id handoff_rejected found stranger other =
    ack_refused r now s t from id found stranger false
handle_refused r now s t from id (unknown type) found stranger other = refl

same_stores :
    (w : Stores) (project q : String) (s : Store)
    → resolve_project_store w project ≡ some s
    → resolve_project_store (put_store w project s) q ≡ resolve_project_store w q
same_stores w project q s h = elim (Option-cases w.projects) [
  | inl single ↦ rw single (ground arith)
  | inr (m, several) ↦ ground (arith, lookup-insert project q s m, eq_iff project q)
]

-- An agent that neither holds the lease, nor, where there is none, is the one the task is routed to.
outsider :
    (from : String) (t : Task)
    → ((l : TaskLease) → t.lease ≡ some l → l.agent ≢ from)
    → (t.lease ≡ none → t.routing.agent ≢ some from)
    → check_authorization from t ≡ false
unfolding check_authorization resolve_authorized_agent
outsider from t no_holder no_target = elim (Option-cases t.lease) [
  | inr (l, held) ↦ ground (arith, no_holder l held, eq_iff from l.agent)
  | inl free ↦ elim (Option-cases t.routing.agent) [
    | inl unrouted ↦ ground arith
    | inr (agent, routed) ↦ ground (arith, no_target free, eq_iff from agent)
  ]
]

-- A message that is no status update, from an agent that does not hold the task (the holder of its lease, or,
-- without a lease, the agent that it is routed to), throws no error and leaves the store of every project as it is.
pub route_unauthorized :
    (r : ProtocolRouter) (now : ℕ) (e : ProtocolEnvelope) (w : Stores) (s : Store) (t : Task)
    (q : String)
    → resolve_project_store w e.project_id ≡ some s
    → lookup e.task_id s ≡ some t
    → ((l : TaskLease) → t.lease ≡ some l → l.agent ≢ e.from_agent)
    → (t.lease ≡ none → t.routing.agent ≢ some e.from_agent)
    → is_status_update e.message ≡ false
    → ((route r now e w).0 ≡ return tt)
      × (resolve_project_store (route r now e w).1 q ≡ resolve_project_store w q)
unfolding route
route_unauthorized r now e w s t q project found no_holder no_target other =
    let stranger = outsider e.from_agent t no_holder no_target in
    let refused = handle_refused r now s t e.from_agent e.task_id e.message found stranger other in
    let answer : route r now e w ≡ (return tt, put_store w e.project_id s) =
      rw (route, project, found, refused) refl in
    (
      ap (λ (x : Answer (Unit {0}) × Stores). x.0) answer,
      ap (λ (x : Answer (Unit {0}) × Stores). resolve_project_store x.1 q) answer
          ∙ same_stores w e.project_id q s project,
    )
