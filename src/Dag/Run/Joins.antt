-- ===== src/Dag/Run/Joins.antt =====
-- Marking the ready hops is a run of steps, when no two hops of the definition share an identifier.
use mathlib.Core.Path.{fun_ext}
use mathlib.Core.List.{Memᴰ}
use aof.Prelude.{
  String, true, false, none, some, List, [], ◌∷◌, Dict, lookup, insert, ◌≡◌, refl, sym, ◌∙◌, ap,
  arith, every, any_of, includes, All, Bool-cases, eq_iff, inl, inr,
}
use aof.Workflow.Schema.{Hop, JoinType, all, any, HopState, pending, ready}
use aof.Dag.Types.{Work}
use aof.Dag.Status.{
  status_of, is_pending, is_complete, is_satisfied, with_status, write, status_of-insert,
  with_status_lem,
}
use aof.Dag.Ready.{join_satisfied, is_empty, newly_ready, determine_ready_hops, mark_ready}
use aof.Dag.Run.Steps.{Setting, Run, join, here, next, Run-trans}
use aof.Dag.Run.Sound.{is_pending_eq}

abbrev pub hop_ids : List Hop → List String
hop_ids [] = []
hop_ids (hop ∷ hops) = hop.id ∷ hop_ids hops

-- No two hops share an identifier.
abbrev pub IsUnique : List Hop → Type 0
IsUnique [] = Unit
IsUnique (hop ∷ hops) = (includes hop.id (hop_ids hops) ≡ false) × IsUnique hops

-- The two states look alike to every join.
pub record Agree (a b : Dict HopState) : Type 0 where
  pub completes : (id : String) → is_complete (status_of a id) ≡ is_complete (status_of b id)
  pub satisfies : (id : String) → is_satisfied (status_of a id) ≡ is_satisfied (status_of b id)

pub Agree-refl : (a : Dict HopState) → Agree a a
Agree-refl a = record { completes = λ id. refl; satisfies = λ id. refl }

Agree-trans : {a b c : Dict HopState} → Agree a b → Agree b c → Agree a c
Agree-trans p q = record {
  completes = λ id. p.completes id ∙ q.completes id;
  satisfies = λ id. p.satisfies id ∙ q.satisfies id;
}

pub join_satisfied-Agree :
    {a b : Dict HopState} (t : JoinType) (deps : List String)
    → Agree a b
    → join_satisfied a t deps ≡ join_satisfied b t deps
unfolding join_satisfied
join_satisfied-Agree any deps p = ap (λ f. any_of f deps) (fun_ext p.completes)
join_satisfied-Agree all deps p = ap (λ f. every f deps) (fun_ext p.satisfies)

-- A pending hop that becomes ready changes no join.
Agree-ready :
    (id : String) (h : HopState) (hops : Dict HopState)
    → status_of hops id ≡ some pending
    → h.status ≡ ready
    → Agree hops (insert id h hops)
Agree-ready id h hops p r = record {
  completes = λ j. ground (arith, status_of-insert id j h hops, eq_iff id j);
  satisfies = λ j. ground (arith, status_of-insert id j h hops, eq_iff id j);
}

-- Every hop of the list has the status that it has in `m`.
abbrev Untouched : Dict HopState → Dict HopState → List Hop → Type 0
Untouched m hops = All (λ hop. status_of hops hop.id ≡ status_of m hop.id)

Untouched-insert :
    (m hops : Dict HopState) (id : String) (h : HopState) (rest : List Hop)
    → includes id (hop_ids rest) ≡ false
    → Untouched m hops rest
    → Untouched m (insert id h hops) rest
Untouched-insert m hops id h [] n u = tt
Untouched-insert m hops id h (hop ∷ rest) n (e, u) = (
  ground (arith, status_of-insert id hop.id h hops, eq_iff id hop.id, eq_iff hop.id id),
  Untouched-insert m hops id h rest (ground arith) u,
)

pub newly_ready-parts :
    (m : Dict HopState) (hop : Hop)
    → newly_ready m hop ≡ true
    → (is_pending (status_of m hop.id) ≡ true)
      × (is_empty hop.depends_on ≡ false)
      × (join_satisfied m hop.join_type hop.depends_on ≡ true)
unfolding newly_ready
newly_ready-parts m hop h = ground arith

module _ (s : Setting) (m : Dict HopState) where
  pub mark_ready-Run :
      (rest : List Hop) (w : Work)
      → All (λ hop. Memᴰ hop s.definition.hops) rest
      → IsUnique rest
      → Agree m w.hops
      → Untouched m w.hops rest
      → Run s w (mark_ready (determine_ready_hops m rest) w)
  unfolding mark_ready determine_ready_hops
  mark_ready-Run [] w mem uniq agree same = here
  mark_ready-Run (hop ∷ rest) w mem uniq agree same = elim (Bool-cases (newly_ready m hop)) [
    | inr waits ↦ rw waits (mark_ready-Run rest w mem.1 uniq.1 agree same.1)
    | inl goes ↦
        let (p, nonempty, joined) = newly_ready-parts m hop goes in
        let now = same.0 ∙ is_pending_eq _ p in
        let h = with_status ready (lookup hop.id w.hops) in
        let v = write hop.id (some pending) h none w in
        rw goes (
          Run-trans
            (next here (
              join w hop mem.0 now nonempty
                (sym (join_satisfied-Agree hop.join_type hop.depends_on agree) ∙ joined)))
            (mark_ready-Run rest v mem.1 uniq.1
              (unfold write in
                Agree-trans agree (Agree-ready hop.id h w.hops now (with_status_lem ready _)))
              (unfold write in Untouched-insert m w.hops hop.id h rest uniq.0 same.1)))
  ]
