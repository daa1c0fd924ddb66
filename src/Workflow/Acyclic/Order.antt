-- ===== src/Workflow/Acyclic/Order.antt =====
-- The loop of Kahn's algorithm: the order in which the nodes are processed.
use aof.Prelude.{
  ℕ, zero, suc, ◌+◌, ◌<◌, String, true, false, some, List, [], ◌∷◌, Dict, lookup, insert,
  lookup-insert, includes, length, ◌≡◌, refl, ap, ◌∙◌, arith, eq_iff, eq_refl, Bool-cases, inl, inr,
}
use aof.Workflow.Validate.Graph.{neighbors, degree, relax, kahn}
use aof.Workflow.Acyclic.Counts.{
  occurs, inflow, inflow-insert, inflow_of_includes, NoDup, Within, NoDup-length,
}
use aof.Workflow.Acyclic.Kahn.{Queued, Lowered, relax-Lowered}

-- Latest first: what leads to a node was processed before it.
abbrev pub Ordered : Dict (List String) → List String → Type 0
Ordered adj [] = Unit
Ordered adj (v ∷ done) =
    ((u : String) → includes v (neighbors u adj) ≡ true → includes u done ≡ true) × Ordered adj done

-- The order of the processed nodes, all of them hops and none twice.
pub record Sorted (adj : Dict (List String)) (ids done : List String) : Type 0 where
  pub ordered : Ordered adj done
  pub once : NoDup done
  pub hops : Within done ids

-- The edges left, those of the nodes not processed, are what the degrees count.
pub record Loop (adj : Dict (List String)) (ids done queue : List String) (m : Dict ℕ)
    : Type 0 where
  pub rest : Dict (List String)
  pub same : (u : String) → includes u done ≡ false → lookup u rest ≡ lookup u adj
  pub balance : (v : String) → degree v m ≡ inflow v rest
  pub queued : Queued ids done queue m
  pub sorted : Sorted adj ids done

neighbors_eq :
    (u : String) (a b : Dict (List String))
    → lookup u a ≡ lookup u b
    → neighbors u a ≡ neighbors u b
neighbors_eq u a b h = ground arith

module _ (adj : Dict (List String)) (ids : List String) where
  led_by_done :
      (done queue : List String) (m : Dict ℕ) (c u : String) (l : Loop adj ids done (c ∷ queue) m)
      → includes c (neighbors u adj) ≡ true
      → includes u done ≡ true
  led_by_done done queue m c u l h = elim (Bool-cases (includes u done)) [
    | inl there ↦ there
    | inr missing ↦
        let still : includes c (neighbors u l.rest) ≡ true =
          ap (includes c) (neighbors_eq u l.rest adj (l.same u missing)) ∙ h in
        let zero_c : degree c m ≡ 0 = l.queued.queue_zero c (rw (eq_refl c) refl) in
        let some_edge = inflow_of_includes c u l.rest still in ground (arith, l.balance c)
  ]

  Loop-step :
      (done queue : List String) (m : Dict ℕ) (c : String)
      → Loop adj ids done (c ∷ queue) m
      → Loop adj ids
          (c ∷ done)
          (relax (neighbors c adj) m queue).1
          (relax (neighbors c adj) m queue).0
  unfolding occurs
  Loop-step done queue m c l = record {
    rest = insert c [] l.rest;
    same = λ u h. ground (arith, lookup-insert c u [] l.rest, l.same u);
    balance = λ v. lowered.0 v;
    queued = lowered.1;
    sorted = record {
      ordered = ((λ u h. led_by_done done queue m c u l h), l.sorted.ordered);
      once = (fresh_c, l.sorted.once);
      hops = λ x h. ground (arith, l.sorted.hops x, l.queued.queue_ids c here, eq_iff c x);
    };
  }
    where
      here : includes c (c ∷ queue) ≡ true
      here = rw (eq_refl c) refl

      fresh_c : includes c done ≡ false
      fresh_c = l.queued.fresh c here

      shorter : Queued ids (c ∷ done) queue m
      shorter = record {
        apart = l.queued.apart.1;
        fresh = λ x h. ground (arith, l.queued.fresh x, l.queued.apart, eq_iff c x);
        queue_zero = λ x h. l.queued.queue_zero x (ground arith);
        done_zero =
            λ x h. ground (arith, l.queued.done_zero x, l.queued.queue_zero c here, eq_iff c x);
        queue_ids = λ x h. l.queued.queue_ids x (ground arith);
        keyed = l.queued.keyed;
      }

      before :
          (v : String) → degree v m ≡ inflow v (insert c [] l.rest) + occurs v (neighbors c adj)
      before v =
          let e : occurs v (neighbors c l.rest) ≡ occurs v (neighbors c adj) =
            ap (occurs v) (neighbors_eq c l.rest adj (l.same c fresh_c)) in
          omega (arith, l.balance v, inflow-insert v c [] l.rest, e)

      lowered :
          Lowered ids
            (c ∷ done)
            (λ v. inflow v (insert c [] l.rest))
            (relax (neighbors c adj) m queue)
      lowered =
          relax-Lowered ids (c ∷ done) (neighbors c adj) queue m
            (λ v. inflow v (insert c [] l.rest)) shorter before

  pub kahn_sorts :
      (fuel : ℕ) (queue done : List String) (m : Dict ℕ)
      → Loop adj ids done queue m
      → length ids < fuel + length done
      → (done' : List String) × (m' : Dict ℕ) × (kahn adj fuel queue m (length done)
          ≡ some (length done', m'))
        × Sorted adj ids done'
  unfolding kahn
  kahn_sorts zero queue done m l h =
      let short = NoDup-length done ids l.sorted.once l.sorted.hops in ground arith
  kahn_sorts (suc fuel) [] done m l h = (done, m, refl, l.sorted)
  kahn_sorts (suc fuel) (c ∷ queue) done m l h =
      kahn_sorts fuel _ (c ∷ done) _ (Loop-step done queue m c l) (omega (arith, h))
