-- ===== src/Dag/Log.antt =====
-- The change log of src/dispatch/dag-evaluator.ts, read as a history of the hops' statuses.
use aof.Prelude.{
  String, Option, some, List, [], ◌∷◌, ◌++◌, Dict, if◌then◌else◌, ◌==◌, ◌≡◌, refl, sym, ◌∙◌, ap,
  eq_iff, arith, insert,
}
use aof.Workflow.Schema.{HopStatus, HopState}
use aof.Dag.Types.{HopTransition, Work}
use aof.Dag.Status.{status_of, write, status_of-insert}

abbrev pub Statuses : Type 0
Statuses = String → Option HopStatus

abbrev pub apply_change : HopTransition → Statuses → Statuses
apply_change c f id = if c.hop_id == id then some c.to else f id

-- The statuses after a log, from those before it.
unfoldable pub replay : List HopTransition → Statuses → Statuses
replay [] f = f
replay (c ∷ cs) f = replay cs (apply_change c f)

-- Each entry's `from` is the status that the hop has when the entry is reached.
abbrev pub IsFaithful : List HopTransition → Statuses → Type 0
IsFaithful [] f = Unit
IsFaithful (c ∷ cs) f = (c.from ≡ f c.hop_id) × IsFaithful cs (apply_change c f)

-- The log accounts for every status, from the statuses `f` on.
pub record Explains (f : Statuses) (changes : List HopTransition) (hops : Dict HopState)
    : Type 0 where
  pub faithful : IsFaithful changes f
  pub replayed : (id : String) → status_of hops id ≡ replay changes f id

pub Explains-start : (hops : Dict HopState) → Explains (status_of hops) [] hops
unfolding replay
Explains-start hops = record { faithful = tt; replayed = λ id. refl }

replay_snoc :
    (cs : List HopTransition) (c : HopTransition) (f : Statuses)
    → replay (cs ++ c ∷ []) f ≡ apply_change c (replay cs f)
unfolding replay
replay_snoc [] c f = refl
replay_snoc (d ∷ cs) c f = replay_snoc cs c (apply_change d f)

IsFaithful-snoc :
    (cs : List HopTransition) (c : HopTransition) (f : Statuses)
    → IsFaithful cs f
    → c.from ≡ replay cs f c.hop_id
    → IsFaithful (cs ++ c ∷ []) f
unfolding replay
IsFaithful-snoc [] c f h e = (e, tt)
IsFaithful-snoc (d ∷ cs) c f h e = (h.0, IsFaithful-snoc cs c (apply_change d f) h.1 e)

-- A write with its entry keeps the log explaining the statuses, if `from` is the hop's status.
pub write-Explains :
    {f : Statuses} (id : String) (from : Option HopStatus) (h : HopState) (r : Option String)
    (w : Work)
    → Explains f w.changes w.hops
    → from ≡ status_of w.hops id
    → Explains f (write id from h r w).changes (write id from h r w).hops
unfolding write
write-Explains {f} id from h r w ex e = record {
  faithful = IsFaithful-snoc w.changes entry f ex.faithful (e ∙ ex.replayed id);
  replayed = λ j.
      status_of-insert id j h w.hops
      ∙ ap (λ x. if id == j then some h.status else x) (ex.replayed j)
      ∙ sym (ap (λ g. g j) (replay_snoc w.changes entry f));
}
  where
    entry : HopTransition
    entry = record { hop_id = id; from = from; to = h.status; reason = r }

-- So does a write without an entry that leaves the hop's status.
pub insert-Explains :
    {f : Statuses} (id : String) (h : HopState) (changes : List HopTransition)
    (hops : Dict HopState)
    → Explains f changes hops
    → some h.status ≡ status_of hops id
    → Explains f changes (insert id h hops)
insert-Explains id h changes hops ex e = record {
  faithful = ex.faithful;
  replayed = λ j. status_of-insert id j h hops ∙ same j ∙ ex.replayed j;
}
  where
    same : (j : String) → (if id == j then some h.status else status_of hops j) ≡ status_of hops j
    same j = ground (arith, eq_iff id j)
