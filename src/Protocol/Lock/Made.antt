-- ===== src/Protocol/Lock/Made.antt =====
-- A call that is made.
use aof.Prelude.{
  ℕ, ◌<◌, String, true, false, Option, none, some, lookup, lookup-insert, if◌then◌else◌, ◌==◌, ◌≡◌,
  refl, sym, ap, subst, ◌∙◌, arith, eq_iff, eq_refl, text-cases, inl, inr, ◌⊎◌,
}
use aof.Protocol.Lock.{waiting, Call, LockManager, has_started, with_lock}
use aof.Protocol.Lock.Chain.{put_cases, put_self, put_other, Released, Behind, Entry, Inv}

-- A new call is the last of its task.
module _ (m : LockManager) (task : String) (v : Inv m) where
  new_call : Call
  new_call = record { task_id = task; before = lookup task m.locks; phase = waiting }

  old_call : (i : ℕ) (d : Call) → m.calls i ≡ some d → (with_lock task m).calls i ≡ some d
  unfolding with_lock new_call
  old_call i d h = let below = v.fresh i d h in put_other m.next _ m.calls i (λ e. ground arith) ∙ h

  new_cases :
      (i : ℕ) (d : Call)
      → (with_lock task m).calls i ≡ some d
      → ((i ≡ m.next) × (new_call ≡ d)) ⊎ (m.calls i ≡ some d)
  unfolding with_lock new_call
  new_cases i d h = put_cases m.next new_call m.calls i d h

  Released-called :
      (t : String) (i : ℕ) → i < m.next → Released m t i → Released (with_lock task m) t i
  Released-called t i below h d e k = elim (new_cases i d e) [
    | inl (is_next, is_d) ↦ let no : i ≡ m.next = is_next in ground arith
    | inr old ↦ h d old k
  ]

  Behind-called :
      (t : String) (k : ℕ) (o : Option ℕ)
      → k < m.next
      → Behind m t k o
      → Behind (with_lock task m) t k o
  Behind-called t k none below h = λ i under. Released-called t i (omega arith) (h i under)
  Behind-called t k (some p) below (under, (d, held, of_task), greatest) = (
    under,
    (d, old_call p d held, of_task),
    λ i f less e k'. elim (new_cases i f e) [
      | inl (is_next, is_f) ↦ ground arith
      | inr old ↦ greatest i f less old k'
    ],
  )

  -- The new call waits for the last one.
  Behind-new : (o : Option ℕ) → Entry m task o → Behind (with_lock task m) task m.next o
  Behind-new none h = λ i under. Released-called task i under (h i)
  Behind-new (some p) ((d, held, of_task, open_still), greatest) = (
    v.fresh p d held,
    (d, old_call p d held, of_task),
    λ i f less e k'. elim (new_cases i f e) [
      | inl (is_next, is_f) ↦ ground arith
      | inr old ↦ greatest i f old k'
    ],
  )

  Behind-with_lock :
      (n : ℕ) (c : Call)
      → (with_lock task m).calls n ≡ some c
      → Behind (with_lock task m) c.task_id n c.before
  unfolding new_call
  Behind-with_lock n c e = elim (new_cases n c e) [
    | inr old ↦ Behind-called c.task_id n c.before (v.fresh n c old) (v.behind n c old)
    | inl (is_next, is_c) ↦
        subst (λ (x : Call). Behind (with_lock task m) x.task_id n x.before) is_c
          (subst (λ j. Behind (with_lock task m) task j (lookup task m.locks)) (sym is_next)
            (Behind-new (lookup task m.locks) (v.entry task)))
  ]

  ordered_called :
      (n : ℕ) (c : Call)
      → (with_lock task m).calls n ≡ some c
      → has_started c.phase ≡ true
      → (i : ℕ) → i < n
      → Released (with_lock task m) c.task_id i
  unfolding new_call
  ordered_called n c e begun i under = elim (new_cases n c e) [
    | inr old ↦
        let below = v.fresh n c old in
        Released-called c.task_id i (omega arith) (v.ordered n c old begun i under)
    | inl (is_next, is_c) ↦
        let no : has_started waiting ≡ true = ap (λ (x : Call). has_started x.phase) is_c ∙ begun in
        cc
  ]

  Entry-called :
      (t : String) (o : Option ℕ) → (task == t) ≡ false → Entry m t o → Entry (with_lock task m) t o
  unfolding new_call
  Entry-called t none other h = λ i d e k. elim (new_cases i d e) [
    | inl (is_next, is_d) ↦
        let no : task ≡ t = ap (λ (x : Call). x.task_id) is_d ∙ k in ground (arith, eq_iff task t)
    | inr old ↦ h i d old k
  ]
  Entry-called t (some p) other ((d, held, of_task, open_still), greatest) = (
    (d, old_call p d held, of_task, open_still),
    λ i f e k. elim (new_cases i f e) [
      | inl (is_next, is_f) ↦
          let no : task ≡ t = ap (λ (x : Call). x.task_id) is_f ∙ k in ground (arith, eq_iff task t)
      | inr old ↦ greatest i f old k
    ],
  )

  Entry-with_lock : (t : String) → Entry (with_lock task m) t (lookup t (with_lock task m).locks)
  unfolding with_lock new_call
  Entry-with_lock t = elim (text-cases task t) [
    | inl own ↦ rw (lookup-insert task t m.next m.locks) (
        subst
          (λ x. Entry (with_lock task m) x (if task == x then some m.next else lookup x m.locks))
          own
          (rw (eq_refl task) (
            (new_call, put_self m.next new_call m.calls, refl, refl),
            λ i f e k. elim (new_cases i f e) [
              | inl (is_next, is_f) ↦ omega arith
              | inr old ↦ let below = v.fresh i f old in omega arith
            ],
          )))
    | inr other ↦
        rw (lookup-insert task t m.next m.locks)
          (rw other (Entry-called t (lookup t m.locks) other (v.entry t)))
  ]

  pub called-Inv : Inv (with_lock task m)
  unfolding new_call with_lock
  called-Inv = record {
    fresh = λ i c e. elim (new_cases i c e) [
      | inl (is_next, is_c) ↦ omega arith
      | inr old ↦ let below = v.fresh i c old in omega arith
    ];
    behind = Behind-with_lock;
    ordered = ordered_called;
    entry = Entry-with_lock;
  }
