-- ===== src/Workflow/Acyclic/Kahn.antt =====
-- A round of Kahn's algorithm: what holds of the queue and of the degrees.
use aof.Prelude.{
  ℕ, ◌+◌, ◌-◌, ◌<◌, String, true, false, List, [], ◌∷◌, ◌++◌, Dict, lookup, insert, lookup-insert,
  includes, includes-snoc, if◌then◌else◌, ◌==◌, eqb, ◌≡◌, refl, sym, subst, arith, eq_iff, eq_refl,
  Bool-cases, Option-cases, inl, inr,
}
use aof.Workflow.Validate.Graph.{degree, relax}
use aof.Workflow.Acyclic.Counts.{occurs, NoDup, Within}

pub NoDup-snoc :
    (x : String) (xs : List String) → NoDup xs → includes x xs ≡ false → NoDup (xs ++ x ∷ [])
NoDup-snoc x [] n h = (refl, tt)
NoDup-snoc x (y ∷ xs) (away, n) h =
    (ground (arith, includes-snoc y x xs, eq_iff x y), NoDup-snoc x xs n (ground arith))

-- The queue and the processed nodes, latest first, with the degrees: no node stands twice among them,
-- and all of them have degree 0 and are hops.
pub record Queued (ids done queue : List String) (m : Dict ℕ) : Type 0 where
  pub apart : NoDup queue
  pub fresh : (x : String) → includes x queue ≡ true → includes x done ≡ false
  pub queue_zero : (x : String) → includes x queue ≡ true → degree x m ≡ 0
  pub done_zero : (x : String) → includes x done ≡ true → degree x m ≡ 0
  pub queue_ids : Within queue ids
  pub keyed : (x : String) → 0 < degree x m → includes x ids ≡ true

pub degree-insert :
    (k x : String) (n : ℕ) (m : Dict ℕ)
    → degree x (insert k n m) ≡ (if k == x then n else degree x m)
degree-insert k x n m = ground (arith, lookup-insert k x n m)

-- One neighbour loses an edge.
module _ (ids done queue : List String) (m : Dict ℕ) (q : Queued ids done queue m) (id : String)
    (positive : 0 < degree id m) where
  abbrev lower_insert : Dict ℕ
  lower_insert = insert id (degree id m - 1) m

  not_queued : includes id queue ≡ false
  not_queued = elim (Bool-cases (includes id queue)) [
    | inl there ↦ ground (arith, q.queue_zero id there)
    | inr away ↦ away
  ]

  not_done : includes id done ≡ false
  not_done = elim (Bool-cases (includes id done)) [
    | inl there ↦ ground (arith, q.done_zero id there)
    | inr away ↦ away
  ]

  Queued-stay : Queued ids done queue lower_insert
  Queued-stay = record {
    apart = q.apart;
    fresh = q.fresh;
    queue_zero = λ x h.
        ground (
          arith,
          degree-insert id x (degree id m - 1) m,
          q.queue_zero x h,
          not_queued,
          eq_iff id x,
        );
    done_zero = λ x h.
        ground
          (arith, degree-insert id x (degree id m - 1) m, q.done_zero x h, not_done, eq_iff id x);
    queue_ids = q.queue_ids;
    keyed = λ x h. ground (arith, degree-insert id x (degree id m - 1) m, q.keyed x, eq_iff id x);
  }

  Queued-push : degree id m ≡ 1 → Queued ids done (queue ++ id ∷ []) lower_insert
  Queued-push one = record {
    apart = NoDup-snoc id queue q.apart not_queued;
    fresh = λ x h. ground (arith, includes-snoc x id queue, q.fresh x, not_done, eq_iff id x);
    queue_zero = λ x h. ground (
      arith,
      includes-snoc x id queue,
      degree-insert id x (degree id m - 1) m,
      q.queue_zero x,
      eq_iff id x,
    );
    done_zero = λ x h.
        ground
          (arith, degree-insert id x (degree id m - 1) m, q.done_zero x h, not_done, eq_iff id x);
    queue_ids = λ x h.
        ground (arith, includes-snoc x id queue, q.queue_ids x, q.keyed id positive, eq_iff id x);
    keyed = λ x h. ground (arith, degree-insert id x (degree id m - 1) m, q.keyed x, eq_iff id x);
  }

relax_step :
    (id : String) (ids queue : List String) (m : Dict ℕ)
    → 0 < degree id m
    → relax (id ∷ ids) m queue
      ≡ relax ids
          (insert id (degree id m - 1) m)
          (if eqb (degree id m) 1 then queue ++ id ∷ [] else queue)
unfolding relax
relax_step id ids queue m positive = elim (Option-cases (lookup id m)) [
  | inl e ↦ ground arith
  | inr (n, e) ↦ let d : degree id m ≡ n = ground arith in rw (e, relax) (rw d refl)
]

-- The degrees left, and the queue, after the neighbours lost their edges.
abbrev pub Lowered : List String → List String → (String → ℕ) → Dict ℕ × List String → Type 0
Lowered ids done left r = ((v : String) → degree v r.0 ≡ left v) × Queued ids done r.1 r.0

pub relax-Lowered :
    (ids done ns queue : List String) (m : Dict ℕ) (left : String → ℕ)
    → Queued ids done queue m
    → ((v : String) → degree v m ≡ left v + occurs v ns)
    → Lowered ids done left (relax ns m queue)
unfolding relax occurs
relax-Lowered ids done [] queue m left q b = ((λ v. omega (arith, b v)), q)
relax-Lowered ids done (n ∷ ns) queue m left q b =
    subst (Lowered ids done left) (sym (relax_step n ns queue m positive))
      (elim (Bool-cases (eqb (degree n m) 1)) [
        | inl one ↦ rw one (
            relax-Lowered ids done ns (queue ++ n ∷ []) (insert n (degree n m - 1) m) left
              (Queued-push ids done queue m q n positive (ground arith)) balance)
        | inr many ↦ rw many (
            relax-Lowered ids done ns queue (insert n (degree n m - 1) m) left
              (Queued-stay ids done queue m q n positive) balance)
      ])
  where
    positive : 0 < degree n m
    positive = ground (arith, b n, eq_refl n)

    balance : (v : String) → degree v (insert n (degree n m - 1) m) ≡ left v + occurs v ns
    balance v =
        ground (arith, degree-insert n v (degree n m - 1) m, b v, b n, eq_iff n v, eq_refl n)
