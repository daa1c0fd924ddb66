-- ===== src/Workflow/Acyclic/Cycles.antt =====
-- A definition whose nodes were all processed in order has no cycle.
use mathlib.Core.List.{Memᴰ}
use aof.Prelude.{
  ℕ, suc, ◌≤◌, ◌<◌, String, true, List, [], ◌∷◌, Dict, includes, if◌then◌else◌, ◌==◌, length, ◌≡◌,
  sym, ap, arith, eq_iff, subst, Bool-cases, inl, inr,
}
use aof.Workflow.Schema.{Hop}
use aof.Workflow.Validate.Errors.{ids_of}
use aof.Workflow.Validate.Graph.{neighbors, graph_of}
use aof.Workflow.Acyclic.Counts.{NoDup, Within}
use aof.Workflow.Acyclic.Order.{Ordered, Sorted}
use aof.Workflow.Acyclic.Edges.{graph_of-IsEdge}

-- A hop `a` depends on `b`.
abbrev pub Needs : List Hop → String → String → Type 0
Needs hops a b = (h : Hop) × Memᴰ h hops × (h.id ≡ a) × (includes b h.depends_on ≡ true)

pub data Reach (hops : List Hop) (a : String) : String → Type 0 where
  here : Reach hops a a
  next : {b c : String} → Reach hops a b → Needs hops b c → Reach hops a c

-- No hop depends on itself, by any chain.
abbrev pub IsAcyclic : List Hop → Type 0
IsAcyclic hops = (a b : String) → Needs hops a b → ¬ Reach hops b a

-- How many nodes were processed up to this one.
rank : String → List String → ℕ
rank x [] = 0
rank x (y ∷ done) = if y == x then suc (length done) else rank x done

rank-le : (x : String) (done : List String) → rank x done ≤ length done
unfolding rank
rank-le x [] = omega arith
rank-le x (y ∷ done) = ground (arith, rank-le x done)

rank-Ordered :
    (adj : Dict (List String)) (u v : String) (done : List String)
    → Ordered adj done
    → NoDup done
    → includes v done ≡ true
    → includes v (neighbors u adj) ≡ true
    → (includes u done ≡ true) × (rank u done < rank v done)
unfolding rank
rank-Ordered adj u v [] o n m e = cc
rank-Ordered adj u v (y ∷ done) (first, o) (away, n) m e = elim (Bool-cases (y == v)) [
  | inl same ↦
      let y_v : y ≡ v = (eq_iff y v).0 same in
      let before : includes u done ≡ true =
        first u (subst (λ x. includes x (neighbors u adj) ≡ true) (sym y_v) e) in
      ground (arith, before, away, rank-le u done, eq_iff y u)
  | inr other ↦
      let (before, less) = rank-Ordered adj u v done o n (ground arith) e in
      ground (arith, before, less, away, eq_iff y u)
]

module _ (hops : List Hop) (done : List String)
    (s : Sorted (graph_of hops).adjacency (ids_of hops) done) (all_done : Within (ids_of hops) done)
    (known : (a b : String) → Needs hops a b → includes b (ids_of hops) ≡ true) where
  hop_of_mem : {h : Hop} {hs : List Hop} → Memᴰ h hs → includes h.id (ids_of hs) ≡ true
  hop_of_mem {h = h} {hs = []} m = elim m [ ]
  hop_of_mem {h = h} {hs = x ∷ hs} (Memᴰ.head e) =
      ground (arith, eq_iff x.id h.id, ap (λ (y : Hop). y.id) e)
  hop_of_mem {h = h} {hs = x ∷ hs} (Memᴰ.tail m) = ground (arith, hop_of_mem m)

  Needs-rank : (a b : String) → Needs hops a b → rank b done < rank a done
  Needs-rank a b (h, m, e, inc) =
      let edge = graph_of-IsEdge h b hops m inc (known a b (h, m, e, inc)) in
      let less =
        (rank-Ordered (graph_of hops).adjacency b h.id done s.ordered s.once
          (all_done h.id (hop_of_mem m)) edge).1 in
      subst (λ x. rank b done < rank x done) e less

  Reach-rank : {a b : String} → Reach hops a b → rank b done ≤ rank a done
  Reach-rank here = omega arith
  Reach-rank (next {b = b} {c = c} r e) = omega (arith, Reach-rank r, Needs-rank b c e)

  pub sorted-IsAcyclic : IsAcyclic hops
  sorted-IsAcyclic a b e r = omega (arith, Needs-rank a b e, Reach-rank r)
