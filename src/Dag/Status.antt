-- ===== src/Dag/Status.antt =====
-- Reading and writing one hop of the working copy.
use aof.Prelude.{
  ℕ, String, Bool, true, false, Option, none, some, [], ◌∷◌, ◌++◌, Dict, lookup, insert,
  lookup-insert, if◌then◌else◌, ◌==◌, ◌≡◌, refl, inl, inr, Bool-cases,
}
use aof.Workflow.Schema.{HopStatus, pending, ready, complete, failed, skipped, HopState}
use aof.Dag.Types.{Work}

-- `state.hops[id]?.status`
unfoldable pub status_of : Dict HopState → String → Option HopStatus
status_of hops id = elim (lookup id hops) [ none ↦ none | some s ↦ some s.status ]

abbrev pub is_pending : Option HopStatus → Bool
is_pending (some pending) = true
is_pending _ = false

abbrev pub is_ready : Option HopStatus → Bool
is_ready (some ready) = true
is_ready _ = false

abbrev pub is_complete : Option HopStatus → Bool
is_complete (some complete) = true
is_complete _ = false

-- "complete" or "skipped"
abbrev pub is_satisfied : Option HopStatus → Bool
is_satisfied (some complete) = true
is_satisfied (some skipped) = true
is_satisfied _ = false

-- "skipped" or "failed"
abbrev pub is_non_success : Option HopStatus → Bool
is_non_success (some skipped) = true
is_non_success (some failed) = true
is_non_success _ = false

-- "complete", "skipped" or "failed"
abbrev pub is_terminal : Option HopStatus → Bool
is_terminal (some complete) = true
is_terminal (some skipped) = true
is_terminal (some failed) = true
is_terminal _ = false

-- `{ status }`, and `{ ...undefined, status }`.
unfoldable pub fresh : HopStatus → HopState
fresh s = record {
  status = s;
  started_at = none;
  completed_at = none;
  agent = none;
  correlation_id = none;
  result = none;
  rejection_count = none;
  escalated = none;
}

-- `{ ...state.hops[id]!, status }`
unfoldable pub with_status : HopStatus → Option HopState → HopState
unfolding fresh
with_status s none = fresh s
with_status s (some h) = record h { status = s }

-- The same with `completedAt`.
unfoldable pub finished : HopStatus → ℕ → Option HopState → HopState
unfolding with_status
finished s timestamp h = let base = with_status s h in record base { completed_at = some timestamp }

-- `state.hops[id] = h` and `changes.push({ hopId, from, to: h.status, reason })`.
unfoldable pub write : String → Option HopStatus → HopState → Option String → Work → Work
write id from h reason w = record {
  hops = insert id h w.hops;
  changes = w.changes ++ record { hop_id = id; from = from; to = h.status; reason = reason } ∷ [];
}

pub status_of-insert :
    (id j : String) (h : HopState) (hops : Dict HopState)
    → status_of (insert id h hops) j ≡ (if id == j then some h.status else status_of hops j)
unfolding status_of
status_of-insert id j h hops =
    rw (lookup-insert id j h hops, status_of)
      (elim (Bool-cases (id == j)) [ inl e ↦ rw e | inr e ↦ rw e ])

pub with_status_lem : (s : HopStatus) (o : Option HopState) → (with_status s o).status ≡ s
unfolding with_status
with_status_lem s none = refl
with_status_lem s (some h) = refl

pub finished_lem : (s : HopStatus) (t : ℕ) (o : Option HopState) → (finished s t o).status ≡ s
unfolding finished
finished_lem s t none = refl
finished_lem s t (some h) = refl
