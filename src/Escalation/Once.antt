-- ===== src/Escalation/Once.antt =====
-- src/dispatch/escalation.ts: a hop is escalated once.
use aof.Prelude.{
  ℕ, String, true, false, ◌&&◌, Option, none, some, List, [], ◌∷◌, lookup, lookup-insert, ◌≡◌, refl,
  sym, ap, ◌∙◌, arith, if◌then◌else◌, ◌⊎◌, inl, inr, Bool-cases, Option-cases, text-cases, eq_iff,
  some_eq,
}
use aof.Workflow.Schema.{Hop, HopState}
use aof.Escalation.Timeouts.{
  DagTask, Config, SpawnResult, spawned, refused, raised, save_hop, redispatched, left_ready,
  escalate_to_role, escalate_hop_timeout, timed_out, is_dispatched, is_late, timeout_of, is_set,
  set_text, check_hops, check_task,
}

-- A hop that was dispatched and not escalated is, and keeps its result and its count of rejections.
pub record Escalates (h h' : HopState) : Type 0 where
  pub was_dispatched : is_dispatched h.status ≡ true
  pub first : is_set h.escalated ≡ false
  pub marked : h'.escalated ≡ some true
  pub result : h'.result ≡ h.result
  pub count_kept : h'.rejection_count ≡ h.rejection_count

abbrev pub Once : Option HopState → Option HopState → Type 0
Once a b =
    (b ≡ a) ⊎ ((h : HopState) × (h' : HopState) × (a ≡ some h) × (b ≡ some h') × Escalates h h')

Once-trans : (a b c : Option HopState) → Once a b → Once b c → Once a c
Once-trans a b c (inl e) (inl f) = inl (f ∙ e)
Once-trans a b c (inl e) (inr (h, h', p, q, k)) = inr (h, h', sym e ∙ p, q, k)
Once-trans a b c (inr (h, h', p, q, k)) (inl f) = inr (h, h', p, f ∙ q, k)
Once-trans a b c (inr (h, h', p, q, k)) (inr (g, g', r, s, l)) =
    let same : h' ≡ g = some_eq (sym q ∙ r) in
    let again : g.escalated ≡ some true =
      ap (λ (x : HopState). x.escalated) (sym same) ∙ k.marked in
    ground (arith, l.first)

abbrev OnceAt : String → DagTask → DagTask → Type 0
OnceAt j t t' = Once (lookup j t.state.hops) (lookup j t'.state.hops)

pub spawn_cases :
    (r : SpawnResult) → ((s : Option String) × (r ≡ spawned s)) ⊎ (r ≡ refused) ⊎ (r ≡ raised)
spawn_cases (spawned s) = inl (s, refl)
spawn_cases refused = inr (inl refl)
spawn_cases raised = inr (inr refl)

module _ (j : String) (now : ℕ) (hop : Hop) (h : HopState) (t : DagTask)
    (found : lookup hop.id t.state.hops ≡ some h) (was : is_dispatched h.status ≡ true)
    (first : is_set h.escalated ≡ false) where
  saved_once : (h' : HopState) → Escalates h h' → OnceAt j t (save_hop now hop.id h' t)
  unfolding save_hop
  saved_once h' k = elim (text-cases hop.id j) [
    | inl same ↦ inr (
      h,
      h',
      ap (λ i. lookup i t.state.hops) (sym same) ∙ found,
      lookup-insert hop.id j h' t.state.hops ∙ rw ((eq_iff hop.id j).1 same) refl,
      k,
    )
    | inr other ↦ inl (lookup-insert hop.id j h' t.state.hops ∙ rw other refl)
  ]

  ready_once : (role : String) → OnceAt j t (save_hop now hop.id (left_ready role h) t)
  ready_once role = saved_once (left_ready role h) (record {
    was_dispatched = was;
    first = first;
    marked = refl;
    result = refl;
    count_kept = refl;
  })

  to_role_once :
      (cfg : Config) (role : String) → OnceAt j t (escalate_to_role cfg now hop role h t).1
  unfolding escalate_to_role
  to_role_once cfg role = elim (Option-cases cfg.executor) [
    | inl e ↦ rw (e, escalate_to_role) (ready_once role)
    | inr (spawn, e) ↦ elim (spawn_cases (spawn hop role)) [
      | inl (session, s) ↦
          rw (e, escalate_to_role)
            (rw s (
              saved_once (redispatched now role session h) (record {
                was_dispatched = was;
                first = first;
                marked = refl;
                result = refl;
                count_kept = refl;
              })))
      | inr (inl s) ↦ rw (e, escalate_to_role) (rw s (ready_once role))
      | inr (inr s) ↦ rw (e, escalate_to_role) (rw s (inl refl))
    ]
  ]

escalate_once :
    (j : String) (cfg : Config) (now : ℕ) (hop : Hop) (h : HopState) (t : DagTask)
    → lookup hop.id t.state.hops ≡ some h
    → is_dispatched h.status ≡ true
    → OnceAt j t (escalate_hop_timeout cfg now hop h t).1
unfolding escalate_hop_timeout
escalate_once j cfg now hop h t found was = elim (Bool-cases (is_set h.escalated)) [
  | inl before ↦ rw before (inl refl)
  | inr first ↦ elim (Option-cases (set_text hop.escalate_to)) [
    | inl e ↦ rw first (rw (e, escalate_hop_timeout) (inl refl))
    | inr (role, e) ↦ elim (Bool-cases cfg.dry_run) [
      | inl dry ↦ rw first (rw (e, escalate_hop_timeout) (rw dry (inl refl)))
      | inr wet ↦ rw first (
          rw (e, escalate_hop_timeout)
            (rw wet (to_role_once j now hop h t found was first cfg role)))
    ]
  ]
]

timed_out-lookup :
    (now : ℕ) (hop : Hop) (t : DagTask) (g : HopState)
    → lookup hop.id t.state.hops ≡ some g
    → timed_out now hop t ≡ (
        if is_dispatched g.status && is_late now g.started_at (timeout_of hop)
        then some g
        else none)
unfolding timed_out
timed_out-lookup now hop t g found = rw (found, timed_out) refl

timed_out_found :
    (now : ℕ) (hop : Hop) (t : DagTask) (h : HopState)
    → timed_out now hop t ≡ some h
    → (lookup hop.id t.state.hops ≡ some h) × (is_dispatched h.status ≡ true)
unfolding timed_out
timed_out_found now hop t h e = elim (Option-cases (lookup hop.id t.state.hops)) [
  | inl missing ↦ ground arith
  | inr (g, found) ↦
      let value = sym (timed_out-lookup now hop t g found) ∙ e in
      elim (Bool-cases (is_dispatched g.status && is_late now g.started_at (timeout_of hop))) [
        | inl late ↦
            let same : g ≡ h = some_eq (rw late at value) in
            (
              found ∙ ap some same,
              ap (λ (x : HopState). is_dispatched x.status) (sym same) ∙ ground arith,
            )
        | inr other ↦ ground (arith, value)
      ]
]

check_hops_once :
    (j : String) (cfg : Config) (now : ℕ) (hops : List Hop) (t : DagTask)
    → OnceAt j t (check_hops cfg now hops t).1
unfolding check_hops
check_hops_once j cfg now [] t = inl refl
check_hops_once j cfg now (hop ∷ hops) t = elim (Option-cases (timed_out now hop t)) [
  | inl on_time ↦ rw (on_time, check_hops) (check_hops_once j cfg now hops t)
  | inr (h, late) ↦
      let (found, was) = timed_out_found now hop t h late in
      let r = escalate_hop_timeout cfg now hop h t in
      let now_once = escalate_once j cfg now hop h t found was in
      elim (Option-cases r.0) [
        | inl threw ↦ rw (late, check_hops) (rw threw now_once)
        | inr (alert, e) ↦
            rw (late, check_hops)
              (rw e (Once-trans _ _ _ now_once (check_hops_once j cfg now hops r.1)))
      ]
]

-- The checks of a task by later and later polls; an exception ends the check that it happens in.
unfoldable pub run_checks : List (Config × ℕ) → DagTask → DagTask
unfolding check_task
run_checks [] t = t
run_checks ((cfg, now) ∷ cs) t = run_checks cs (check_task cfg now t).1

-- Over any number of checks of a task, each hop stays as it is, or it is escalated once: a hop that was
-- dispatched and not escalated is marked, with the result and the count of rejections that it had.
pub run_checks-Once :
    (j : String) (cs : List (Config × ℕ)) (t : DagTask)
    → Once (lookup j t.state.hops) (lookup j (run_checks cs t).state.hops)
unfolding run_checks check_task
run_checks-Once j [] t = inl refl
run_checks-Once j ((cfg, now) ∷ cs) t =
    Once-trans _ _ _ (check_hops_once j cfg now t.definition.hops t)
      (run_checks-Once j cs (check_task cfg now t).1)
