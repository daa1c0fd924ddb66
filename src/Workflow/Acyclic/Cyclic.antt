-- ===== src/Workflow/Acyclic/Cyclic.antt =====
-- `validateDAG`: the search for a cycle returns, and finds none only where there is none.
use aof.Prelude.{
  ℕ, suc, String, true, some, List, [], ◌∷◌, Dict, lookup, includes, if◌then◌else◌, eqb, ltb,
  length, ◌≡◌, refl, arith, Bool-cases, Option-cases, inl, inr,
}
use aof.Workflow.Schema.{Hop}
use aof.Workflow.Validate.Errors.{ValidationError, ids_of, cycle_detected}
use aof.Workflow.Validate.Graph.{graph_of, keys_where, check_cycles}
use aof.Workflow.Acyclic.Counts.{Within, NoDup-full}
use aof.Workflow.Acyclic.Order.{Sorted, Loop, kahn_sorts}
use aof.Workflow.Acyclic.Build.{Built, graph_of-Built, keys_where-NoDup, keys_where-passes, keys_of}

lookup-keys :
    (x : String) (n : ℕ) (m : Dict ℕ) → lookup x m ≡ some n → includes x (keys_of m) ≡ true
unfolding lookup
lookup-keys x n [] h = cc
lookup-keys x n ((k, v) ∷ m) h = ground (arith, lookup-keys x n m)

-- The loop starts with the nodes that nothing leads to.
start-Loop :
    (hops : List Hop)
    → Loop
        (graph_of hops).adjacency
        (ids_of hops)
        []
        (keys_where (λ n. eqb n 0) (graph_of hops).in_degree)
        (graph_of hops).in_degree
start-Loop hops = record {
  rest = (graph_of hops).adjacency;
  same = λ u h. refl;
  balance = b.balance;
  queued = record {
    apart = keys_where-NoDup (λ n. eqb n 0) m b.once;
    fresh = λ x h. refl;
    queue_zero = λ x h. let (n, found, passes) = zero_of x h in ground arith;
    done_zero = λ x h. cc;
    queue_ids = λ x h. let (n, found, passes) = zero_of x h in b.keyed x (lookup-keys x n m found);
    keyed = λ x h. elim (Option-cases (lookup x m)) [
      | inl missing ↦ ground arith
      | inr (n, found) ↦ b.keyed x (lookup-keys x n m found)
    ];
  };
  sorted = record { ordered = tt; once = tt; hops = λ x h. cc };
}
  where
    m : Dict ℕ
    m = (graph_of hops).in_degree

    b : Built (ids_of hops) (graph_of hops)
    b = graph_of-Built hops

    zero_of :
        (x : String)
        → includes x (keys_where (λ n. eqb n 0) m) ≡ true
        → (n : ℕ) × (lookup x m ≡ some n) × (eqb n 0 ≡ true)
    zero_of x h = keys_where-passes (λ n. eqb n 0) m x b.once h

length-ids_of : (hops : List Hop) → length (ids_of hops) ≡ length hops
length-ids_of [] = refl
length-ids_of (h ∷ hops) = omega (arith, length-ids_of hops)

-- The search for a cycle returns, and finds none only if it processed every hop in order.
pub check_cycles_lem :
    (hops : List Hop)
    → (errors : List ValidationError) × (done : List String) × (check_cycles hops ≡ some errors)
      × Sorted (graph_of hops).adjacency (ids_of hops) done
      × (errors ≡ [] → Within (ids_of hops) done)
unfolding check_cycles
check_cycles_lem hops =
    let g = graph_of hops in
    let (done, m, runs, s) =
      kahn_sorts g.adjacency (ids_of hops) (suc (length hops))
        (keys_where (λ n. eqb n 0) g.in_degree) [] g.in_degree (start-Loop hops)
        (omega (arith, length-ids_of hops)) in
    (
      if eqb (length done) (length hops)
          then []
          else cycle_detected (keys_where (λ n. ltb 0 n) m) ∷ [],
      done,
      rw (runs, check_cycles) refl,
      s,
      λ accepted. elim (Bool-cases (eqb (length done) (length hops))) [
        | inl all_there ↦
            NoDup-full done (ids_of hops) s.once s.hops (ground (arith, length-ids_of hops))
        | inr fewer ↦ ground arith
      ],
    )
