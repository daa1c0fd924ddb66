-- ===== src/Escalation/Retry.antt =====
-- src/dispatch/escalation.ts and src/dispatch/dag-transition-handler.ts: the dispatch that follows an
-- escalation whose session was refused.
use aof.Prelude.{
  ℕ, String, true, false, Option, none, some, lookup, lookup-insert_self, ◌≡◌, refl, ap, ◌∙◌,
}
use aof.Workflow.Schema.{Hop, HopState, HopStatus}
use aof.Dag.Cascade.{find_hop}
use aof.Escalation.Timeouts.{
  DagTask, Config, SpawnResult, spawned, refused, save_hop, left_ready, escalate_to_role,
  escalate_hop_timeout, is_set, set_text, already_escalated, escalated_to,
}
use aof.Escalation.Dispatch.{dispatched_hop, dispatch_hop}

abbrev pub running : (Hop → String → SpawnResult) → Config
running spawn = record { dry_run = false; executor = some spawn }

module _ (hop : Hop) (role : String) (now : ℕ) (h : HopState) (t : DagTask)
    (spawn : Hop → String → SpawnResult) where
  refused_leaves_ready :
      is_set h.escalated ≡ false
      → set_text hop.escalate_to ≡ some role
      → spawn hop role ≡ refused
      → escalate_hop_timeout (running spawn) now hop h t
        ≡ (some (escalated_to hop.id role), save_hop now hop.id (left_ready role h) t)
  unfolding escalate_hop_timeout escalate_to_role
  refused_leaves_ready first goes no_session =
      rw first (rw (goes, escalate_hop_timeout) (rw no_session refl))

dispatch_returns :
    (spawn : Hop → String → SpawnResult) (now : ℕ) (hop : Hop) (session : Option String)
    (t : DagTask)
    → find_hop t.definition hop.id ≡ some hop
    → spawn hop hop.role ≡ spawned session
    → dispatch_hop spawn now hop.id t ≡ (
      some true,
      save_hop now hop.id (dispatched_hop now hop.role session (lookup hop.id t.state.hops)) t,
    )
unfolding dispatch_hop
dispatch_returns spawn now hop session t known accepts = rw (known, dispatch_hop) (rw accepts refl)

-- The state of the hop after the dispatch that retries.
abbrev pub retried : ℕ → Hop → Option String → String → HopState → HopState
retried later hop session role h = dispatched_hop later hop.role session (some (left_ready role h))

-- When the session for the role of an escalation is refused, the hop is left ready, with that role as its
-- agent, and marked as escalated. The dispatch that retries it goes to the hop's own role again, and the hop
-- is still marked: when it times out once more, nothing is done but an alert.
pub retry_loses_escalation :
    (hop : Hop) (role : String) (now later last : ℕ) (h : HopState) (session : Option String)
    (t : DagTask) (spawn spawn' : Hop → String → SpawnResult) (cfg : Config)
    → find_hop t.definition hop.id ≡ some hop
    → is_set h.escalated ≡ false
    → set_text hop.escalate_to ≡ some role
    → spawn hop role ≡ refused
    → spawn' hop hop.role ≡ spawned session
    → (t1 : DagTask) × (t2 : DagTask) × (h1 : HopState) × (h2 : HopState) × (escalate_hop_timeout
          (running spawn)
          now
          hop
          h
          t
        ≡ (some (escalated_to hop.id role), t1))
      × (lookup hop.id t1.state.hops ≡ some h1)
      × (h1 ≡ record h {
        status = HopStatus.ready;
        agent = some role;
        started_at = none;
        correlation_id = none;
        escalated = some true;
      })
      × (dispatch_hop spawn' later hop.id t1 ≡ (some true, t2))
      × (lookup hop.id t2.state.hops ≡ some h2)
      × (h2 ≡ record h {
        status = HopStatus.dispatched;
        agent = some hop.role;
        started_at = some later;
        correlation_id = session;
        escalated = some true;
      })
      × (escalate_hop_timeout cfg last hop h2 t2 ≡ (some (already_escalated hop.id), t2))
unfolding save_hop escalate_hop_timeout
retry_loses_escalation hop role now later last h session t spawn spawn' cfg known first goes
      no_session accepts =
    let t1 = save_hop now hop.id (left_ready role h) t in
    let at1 : lookup hop.id t1.state.hops ≡ some (left_ready role h) =
      lookup-insert_self hop.id (left_ready role h) t.state.hops in
    let h2 = retried later hop session role h in
    let t2 = save_hop later hop.id h2 t1 in
    (
      t1,
      t2,
      left_ready role h,
      h2,
      refused_leaves_ready hop role now h t spawn first goes no_session,
      at1,
      refl,
      dispatch_returns spawn' later hop session t1 known accepts
          ∙ ap
              (λ x. (some true, save_hop later hop.id (dispatched_hop later hop.role session x) t1))
              at1,
      lookup-insert_self hop.id h2 t1.state.hops,
      refl,
      refl,
    )
