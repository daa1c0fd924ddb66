-- ===== src/Protocol/Delegation.antt =====
-- How deep tasks are delegated, and who may answer a handoff.
use aof.Prelude.{
  ℕ, ◌+◌, String, Bool, true, false, Option, none, some, List, [], ◌∷◌, lookup, insert,
  lookup-insert, if◌then◌else◌, ◌≡◌, refl, sym, ◌∙◌, subst, ltb, arith, eq_iff, Bool-cases,
  Option-cases, text-cases, inl, inr, some_eq,
}
use aof.Tasks.Schema.{TaskStatus, Task}
use aof.Tasks.Store.{Store, Action, write_task}
use aof.Tasks.Failures.{or_zero}
use aof.Handler.Completion.{CompletionOutcome}
use aof.Protocol.{
  transition_if_valid, apply_each, apply_completion_outcome, resolve_completion_transitions,
}
use aof.Protocol.Formatters.{StatusUpdatePayload, build_work_log_entry, append_section}
use aof.Protocol.Shallow.{
  IsShallow, AllShallow, Safe, Any, Safe-bind, Safe-then, get_task-Safe, write_task-Safe, pure-Safe,
  if-Safe, transition-Safe, cascade_on_completion-Safe, cascade_on_block-Safe,
}
use aof.Protocol.Router.{
  ProtocolRouter, ProtocolEnvelope, HandoffRequestPayload, Message, completion_report,
  status_update, handoff_request, handoff_accepted, handoff_rejected, unknown, if_stored, attempt,
  nothing, cascade_after, handle_completion_report, update_body, append_work_log, update_status,
  cascade_blocked, log_work, handle_status_update, delegated, handle_handoff_request,
  handle_handoff_ack, handle, route, Stores, resolve_project_store, put_store,
}

nothing-Safe : Safe Any nothing
nothing-Safe = pure-Safe Any tt tt

if_stored-Safe :
    (id : String) (f : Task → Action (Unit {0}))
    → ((t : Task) → IsShallow t → Safe Any (f t))
    → Safe Any (if_stored id f)
unfolding if_stored
if_stored-Safe id f h = record {
  keeps = λ s g. elim (Option-cases (lookup id s)) [
    | inl absent ↦ rw (if_stored, absent) (tt, g)
    | inr (t, found) ↦ rw (if_stored, found) ((h t (g id t found)).keeps s g)
  ];
}

attempt-Safe : {A : Type 0} (Q : A → Type 0) (m : Action A) → Safe Q m → Safe Any (attempt m)
attempt-Safe Q m h = record { keeps = λ s g. (tt, (h.keeps s g).1) }

transition_if_valid-Safe :
    (now : ℕ) (t : Task) (to : TaskStatus)
    → IsShallow t
    → Safe IsShallow (transition_if_valid now t to)
unfolding transition_if_valid
transition_if_valid-Safe now t to h =
    if-Safe IsShallow _ _ _ (pure-Safe IsShallow t h) (transition-Safe now t.id to)

apply_each-Safe :
    (now : ℕ) (tos : List TaskStatus) (t : Task) → IsShallow t → Safe Any (apply_each now tos t)
unfolding apply_each
apply_each-Safe now [] t h = nothing-Safe
apply_each-Safe now (to ∷ tos) t h =
    Safe-bind IsShallow Any _ _ (transition_if_valid-Safe now t to h)
      (λ u g. apply_each-Safe now tos u g)

report-Safe :
    (r : ProtocolRouter) (now : ℕ) (id from : String) (outcome : CompletionOutcome)
    → Safe Any (handle_completion_report r now id from outcome)
unfolding handle_completion_report apply_completion_outcome cascade_after
report-Safe r now id from outcome = if_stored-Safe id _ (λ t h. if-Safe Any _ _ _ nothing-Safe (
    Safe-then Any Any _ _ (apply_each-Safe now (resolve_completion_transitions t outcome) t h)
      (if-Safe Any _ _ _ (attempt-Safe Any _ (cascade_on_completion-Safe now id)) nothing-Safe)))

update_body-Safe :
    (content_hash : String → String) (now : ℕ) (id body : String)
    → Safe IsShallow (update_body content_hash now id body)
unfolding update_body
update_body-Safe content_hash now id body =
    Safe-bind IsShallow IsShallow _ _ (get_task-Safe id)
      (λ t h. Safe-then Any IsShallow _ _ (write_task-Safe _ h) (pure-Safe IsShallow _ h))

append_work_log-Safe :
    (r : ProtocolRouter) (now : ℕ) (t : Task) (p : StatusUpdatePayload)
    → IsShallow t
    → Safe IsShallow (append_work_log r now t p)
unfolding append_work_log
append_work_log-Safe r now t p h = elim (Option-cases (build_work_log_entry (r.iso now) p)) [
  | inl empty ↦ rw (append_work_log, empty) (pure-Safe IsShallow t h)
  | inr (entry, e) ↦
      rw (append_work_log, e)
        (update_body-Safe r.content_hash now t.id (append_section t.body "Work Log" (entry ∷ [])))
]

update_status-Safe :
    (now : ℕ) (t : Task) (o : Option TaskStatus)
    → IsShallow t
    → Safe IsShallow (update_status now t o)
unfolding update_status
update_status-Safe now t none h = pure-Safe IsShallow t h
update_status-Safe now t (some to) h =
    if-Safe IsShallow _ _ _ (pure-Safe IsShallow t h) (transition_if_valid-Safe now t to h)

status_update-Safe :
    (r : ProtocolRouter) (now : ℕ) (id : String) (p : StatusUpdatePayload)
    → Safe Any (handle_status_update r now id p)
unfolding handle_status_update cascade_blocked log_work
status_update-Safe r now id p = if_stored-Safe id _ (λ before h.
    Safe-bind IsShallow Any _ _ (update_status-Safe now before p.status h) (λ after g.
      Safe-then Any Any _ _
        (if-Safe Any _ _ _
          (Safe-bind Any Any _ _ (cascade_on_block-Safe now after.id) (λ result q. nothing-Safe))
          nothing-Safe)
        (if-Safe Any _ _ _
          (Safe-bind IsShallow Any _ _ (append_work_log-Safe r now after p g) (λ t q. nothing-Safe))
          nothing-Safe)))

handoff_request-Safe :
    (now : ℕ) (id from : String) (p : HandoffRequestPayload)
    → Safe Any (handle_handoff_request now id from p)
unfolding handle_handoff_request delegated
handoff_request-Safe now id from p = if-Safe Any _ _ _ nothing-Safe (
    if_stored-Safe id _ (λ child h. if-Safe Any _ _ _ nothing-Safe (
      if_stored-Safe p.parent_task_id _
        (λ parent g. shallow child (or_zero parent.metadata.delegation_depth + 1)))))
  where
    shallow :
        (child : Task) (depth : ℕ)
        → Safe Any
            (if ltb 1 depth then nothing else write_task (delegated now depth p.to_agent_id child))
    shallow child depth = elim (Bool-cases (ltb 1 depth)) [
      | inl deep ↦ rw deep nothing-Safe
      | inr flat ↦
          rw flat (write_task-Safe (delegated now depth p.to_agent_id child) (ground arith))
    ]

ack-Safe :
    (now : ℕ) (id from : String) (accepted : Bool)
    → Safe Any (handle_handoff_ack now id from accepted)
unfolding handle_handoff_ack
ack-Safe now id from accepted = if_stored-Safe id _ (λ child h. if-Safe Any _ _ _ nothing-Safe (
    Safe-bind IsShallow Any _ _ (transition_if_valid-Safe now child TaskStatus.blocked h)
      (λ t q. nothing-Safe)))

handle-Safe :
    (r : ProtocolRouter) (now : ℕ) (id from : String) (m : Message)
    → Safe Any (handle r now id from m)
unfolding handle
handle-Safe r now id from (completion_report outcome) = report-Safe r now id from outcome
handle-Safe r now id from (status_update p) = status_update-Safe r now id p
handle-Safe r now id from (handoff_request p) = handoff_request-Safe now id from p
handle-Safe r now id from handoff_accepted = ack-Safe now id from true
handle-Safe r now id from handoff_rejected = ack-Safe now id from false
handle-Safe r now id from (unknown type) = nothing-Safe

-- No task of any project was delegated more than once.
abbrev pub StoresShallow : Stores → Type 0
StoresShallow w = (q : String) (s : Store) → resolve_project_store w q ≡ some s → AllShallow s

put_store-StoresShallow :
    (w : Stores) (project : String) (s : Store)
    → AllShallow s
    → StoresShallow w
    → StoresShallow (put_store w project s)
put_store-StoresShallow w project s h g q u e = elim (Option-cases w.projects) [
  | inl single ↦ let held : s ≡ u = some_eq (sym (rw single refl) ∙ e) in subst AllShallow held h
  | inr (m, several) ↦
      let at : lookup q (insert project s m) ≡ some u = sym (rw several refl) ∙ e in
      elim (text-cases project q) [
        | inl is_it ↦
            let held : s ≡ u =
              some_eq (ground (arith, lookup-insert project q s m, eq_iff project q)) in
            subst AllShallow held h
        | inr other ↦ g q u (rw several (ground (arith, lookup-insert project q s m)))
      ]
]

route-StoresShallow :
    (r : ProtocolRouter) (now : ℕ) (e : ProtocolEnvelope) (w : Stores)
    → StoresShallow w
    → StoresShallow (route r now e w).1
unfolding route
route-StoresShallow r now e w g = elim (Option-cases (resolve_project_store w e.project_id)) [
  | inl absent ↦ rw (route, absent) g
  | inr (s, project) ↦ elim (Option-cases (lookup e.task_id s)) [
    | inl missing ↦ rw (route, project, missing) g
    | inr (t, found) ↦
        rw (route, project, found)
          (put_store-StoresShallow w e.project_id _
            ((handle-Safe r now e.task_id e.from_agent e.message).keeps s
              (g e.project_id s project)).1
            g)
  ]
]

-- Messages, each with its time, in the order in which their handlers run.
unfoldable pub route_all : ProtocolRouter → List (ℕ × ProtocolEnvelope) → Stores → Stores
unfolding route
route_all r [] w = w
route_all r ((now, e) ∷ es) w = route_all r es (route r now e w).1

-- If no task of any project has a delegation depth above 1, none has after any sequence of messages, whoever
-- sends them, with the cascades that they start, and failing ones included.
pub route_all-StoresShallow :
    (r : ProtocolRouter) (es : List (ℕ × ProtocolEnvelope)) (w : Stores)
    → StoresShallow w
    → StoresShallow (route_all r es w)
unfolding route_all
route_all-StoresShallow r [] w g = g
route_all-StoresShallow r ((now, e) ∷ es) w g =
    route_all-StoresShallow r es (route r now e w).1 (route-StoresShallow r now e w g)
