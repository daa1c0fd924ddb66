-- ===== src/Escalation/Timeouts.antt =====
-- src/dispatch/escalation.ts. What the executor answers to a session is an argument. The logs, the
-- context of the session and the end of the old session, which changes nothing here, are left out.
use aof.Prelude.{
  ℕ, ◌+◌, String, Bool, true, false, not, ◌&&◌, Option, none, some, List, [], ◌∷◌, ◌++◌, lookup,
  insert, if◌then◌else◌, ◌==◌, ltb,
}
use aof.Tasks.Schema.{Task, in_progress, same}
use aof.Workflow.Schema.{Hop, WorkflowDefinition, WorkflowState, HopStatus, HopState, dispatched}
use aof.Escalation.Duration.{parse_duration}

-- A task that carries a workflow, `task.frontmatter.workflow`.
pub record DagTask : Type 0 where
  pub task : Task
  pub definition : WorkflowDefinition
  pub state : WorkflowState

-- `{ success: true, sessionId }`, `{ success: false }`, or an exception.
pub data SpawnResult : Type 0 where
  spawned : (session_id : Option String) → SpawnResult
  refused raised : SpawnResult

-- The executor is given a hop and the role that the session is for.
pub record Config : Type 0 where
  pub dry_run : Bool
  pub executor : Option (Hop → String → SpawnResult)

-- The alert of an action, by what it reports of the hop.
pub data Alert : Type 0 where
  already_escalated no_escalation : (hop : String) → Alert
  would_escalate escalated_to : (hop role : String) → Alert

-- An answer, `none` if it throws, and the task that it leaves.
abbrev pub Checked : Type 0 → Type 0
Checked A = Option A × DagTask

-- The state of the hop, with the time of the update.
unfoldable pub save_hop : ℕ → String → HopState → DagTask → DagTask
save_hop now id h t = record {
  task = record t.task { updated_at = now };
  definition = t.definition;
  state = record t.state { hops = insert id h t.state.hops };
}

abbrev pub redispatched : ℕ → String → Option String → HopState → HopState
redispatched now role session h = record h {
  status = dispatched;
  agent = some role;
  started_at = some now;
  correlation_id = session;
  escalated = some true;
}

abbrev pub left_ready : String → HopState → HopState
left_ready role h = record h {
  status = HopStatus.ready;
  agent = some role;
  started_at = none;
  correlation_id = none;
  escalated = some true;
}

-- The active path, once the role is known.
unfoldable pub escalate_to_role : Config → ℕ → Hop → String → HopState → DagTask → Checked Alert
unfolding save_hop
escalate_to_role cfg now hop role h t =
    let saved : (HopState → Checked Alert) =
      λ h'. (some (escalated_to hop.id role), save_hop now hop.id h' t) in
    elim cfg.executor [
      | none ↦ saved (left_ready role h)
      | some spawn ↦ elim (spawn hop role) [
        | spawned session ↦ saved (redispatched now role session h)
        | refused ↦ saved (left_ready role h)
        | raised ↦ (none, t)
      ]
    ]

-- `if (value)` of an optional flag, text or number.
abbrev pub is_set : Option Bool → Bool
is_set none = false
is_set (some b) = b

abbrev pub set_text : Option String → Option String
set_text none = none
set_text (some s) = if s == "" then none else some s

unfoldable pub escalate_hop_timeout : Config → ℕ → Hop → HopState → DagTask → Checked Alert
unfolding escalate_to_role
escalate_hop_timeout cfg now hop h t =
    if is_set h.escalated
    then (some (already_escalated hop.id), t)
    else elim (set_text hop.escalate_to) [
      | none ↦ (some (no_escalation hop.id), t)
      | some role ↦
          if cfg.dry_run
          then (some (would_escalate hop.id role), t)
          else escalate_to_role cfg now hop role h t
    ]

abbrev pub is_dispatched : HopStatus → Bool
is_dispatched dispatched = true
is_dispatched _ = false

-- `elapsed > timeoutMs`, where all of it is known.
abbrev pub is_late : ℕ → Option ℕ → Option ℕ → Bool
is_late now (some started) (some timeout) = ltb (started + timeout) now
is_late now _ _ = false

abbrev pub timeout_of : Hop → Option ℕ
timeout_of hop = elim (set_text hop.timeout) [ none ↦ none | some s ↦ parse_duration s ]

-- The hop's state, if the hop is dispatched and out of time.
unfoldable pub timed_out : ℕ → Hop → DagTask → Option HopState
timed_out now hop t = elim (lookup hop.id t.state.hops) [
  | none ↦ none
  | some h ↦
      if is_dispatched h.status && is_late now h.started_at (timeout_of hop) then some h else none
]

-- The loop over the hops of a task: an exception ends it.
unfoldable pub check_hops : Config → ℕ → List Hop → DagTask → Checked (List Alert)
unfolding timed_out escalate_hop_timeout
check_hops cfg now [] t = (some [], t)
check_hops cfg now (hop ∷ hops) t = elim (timed_out now hop t) [
  | none ↦ check_hops cfg now hops t
  | some h ↦
      let (answer, t') = escalate_hop_timeout cfg now hop h t in
      elim answer [
        | none ↦ (none, t')
        | some alert ↦
            let (rest, t'') = check_hops cfg now hops t' in
            (elim rest [ none ↦ none | some alerts ↦ some (alert ∷ alerts) ], t'')
      ]
]

unfoldable pub check_task : Config → ℕ → DagTask → Checked (List Alert)
unfolding check_hops
check_task cfg now t = check_hops cfg now t.definition.hops t

-- The loop over the tasks in progress; `ts` are the tasks that carry a workflow.
unfoldable pub check_hop_timeouts : Config → ℕ → List DagTask → Option (List Alert) × List DagTask
unfolding check_task
check_hop_timeouts cfg now [] = (some [], [])
check_hop_timeouts cfg now (t ∷ ts) =
    let (later, ts') = check_hop_timeouts cfg now ts in
    if not (same t.task.status in_progress)
    then (later, t ∷ ts')
    else (let (answer, t') = check_task cfg now t in
        elim answer [
          | none ↦ (none, t' ∷ ts)
          | some alerts ↦ (elim later [ none ↦ none | some more ↦ some (alerts ++ more) ], t' ∷ ts')
        ])
