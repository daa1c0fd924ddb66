-- ===== src/Dag/Run/Frame.antt =====
-- What a run of steps leaves alone.
use aof.Prelude.{
  String, Option, some, Dict, lookup, insert, lookup-insert, ◌≡◌, ◌≢◌, ◌⊎◌, inl, inr, refl, sym,
  ◌∙◌, arith, eq_iff, text-cases, subst,
}
use aof.Workflow.Schema.{HopState, HopStatus, pending, ready, skipped}
use aof.Dag.Types.{Work}
use aof.Dag.Status.{status_of, write, status_of-insert, with_status_lem, finished_lem}
use aof.Dag.Cascade.{skip}
use aof.Dag.Run.Steps.{Step, Run, cascade, condition, join, here, next, Setting}

-- A hop leaves "pending" for "skipped" or "ready", or keeps its status.
pub data Moved (before after : Option HopStatus) : Type 0 where
  kept : after ≡ before → Moved before after
  moved :
      before ≡ some pending → ((after ≡ some skipped) ⊎ (after ≡ some ready)) → Moved before after

pub Moved-trans : {a b c : Option HopStatus} → Moved a b → Moved b c → Moved a c
Moved-trans (kept e) (kept f) = kept (f ∙ e)
Moved-trans (kept e) (moved p t) = moved (sym e ∙ p) t
Moved-trans (moved p t) (kept f) = moved p (ground arith)
Moved-trans (moved p t) (moved q u) = moved p u

-- A write to a pending hop, seen at any hop.
insert_frame :
    (id j : String) (h : HopState) (hops : Dict HopState)
    → status_of hops id ≡ some pending
    → status_of hops j ≢ some pending
    → lookup j (insert id h hops) ≡ lookup j hops
insert_frame id j h hops p n = elim (text-cases id j) [
  | inl e ↦ absurd (n (subst (λ x. status_of hops x ≡ some pending) e p))
  | inr e ↦ lookup-insert id j h hops ∙ rw e
]

insert-Moved :
    (id j : String) (h : HopState) (hops : Dict HopState)
    → status_of hops id ≡ some pending
    → ((h.status ≡ skipped) ⊎ (h.status ≡ ready))
    → Moved (status_of hops j) (status_of (insert id h hops) j)
insert-Moved id j h hops p t = elim (text-cases id j) [
  | inl e ↦
      moved (subst (λ x. status_of hops x ≡ some pending) e p)
        (rw (status_of-insert id j h hops, (eq_iff id j).1 e) (ground arith))
  | inr e ↦ kept (status_of-insert id j h hops ∙ rw e)
]

Moved-ne_pending : {a b : Option HopStatus} → Moved a b → a ≢ some pending → b ≢ some pending
Moved-ne_pending (kept e) n = λ q. n (sym e ∙ q)
Moved-ne_pending (moved p t) n = absurd (n p)

module _ {s : Setting} where
  Step-frame :
      {u v : Work} (j : String)
      → Step s u v
      → status_of u.hops j ≢ some pending
      → lookup j v.hops ≡ lookup j u.hops
  unfolding skip write
  Step-frame j (cascade w id hop p _ _) n = insert_frame id j _ w.hops p n
  Step-frame j (condition w hop c _ p _ _ _) n = insert_frame hop.id j _ w.hops p n
  Step-frame j (join w hop _ p _ _) n = insert_frame hop.id j _ w.hops p n

  pub Step-Moved :
      {u v : Work} (j : String) → Step s u v → Moved (status_of u.hops j) (status_of v.hops j)
  unfolding skip write
  Step-Moved j (cascade w id hop p _ _) =
      insert-Moved id j _ w.hops p (inl (finished_lem skipped s.timestamp _))
  Step-Moved j (condition w hop c _ p _ _ _) =
      insert-Moved hop.id j _ w.hops p (inl (finished_lem skipped s.timestamp _))
  Step-Moved j (join w hop _ p _ _) =
      insert-Moved hop.id j _ w.hops p (inr (with_status_lem ready _))

  pub Run-Moved :
      {u v : Work} (j : String) → Run s u v → Moved (status_of u.hops j) (status_of v.hops j)
  Run-Moved j here = kept refl
  Run-Moved j (next r st) = Moved-trans (Run-Moved j r) (Step-Moved j st)

  pub Run-frame :
      {u v : Work} (j : String)
      → Run s u v
      → status_of u.hops j ≢ some pending
      → lookup j v.hops ≡ lookup j u.hops
  Run-frame j here n = refl
  Run-frame j (next r st) n = Step-frame j st (Moved-ne_pending (Run-Moved j r) n) ∙ Run-frame j r n
