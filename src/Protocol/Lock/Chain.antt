-- ===== src/Protocol/Lock/Chain.antt =====
-- What holds of the chain of calls of each task, and a call that moves to its next phase.
use aof.Prelude.{
  ℕ, ◌≤◌, ◌<◌, String, true, false, Option, none, some, [], ◌∷◌, Dict, lookup, if◌then◌else◌, ◌==◌,
  eqb, ◌≡◌, ◌≢◌, refl, sym, ap, subst, ◌∙◌, arith, eq_iff, Bool-cases, inl, inr, ◌⊎◌, some_eq,
}
use aof.Protocol.Lock.{Phase, Call, LockManager, delete, put, is_released, has_started, in_phase}

-- The call `i` of the task is released, if there is one.
abbrev pub Released : LockManager → String → ℕ → Type 0
Released m task i = (c : Call) → m.calls i ≡ some c → c.task_id ≡ task → is_released c.phase ≡ true

-- What the promise that a call waits for says of the earlier calls.
abbrev pub Behind : LockManager → String → ℕ → Option ℕ → Type 0
Behind m task n none = (i : ℕ) → i < n → Released m task i
Behind m task n (some p) =
    (p < n)
    × ((c : Call) × (m.calls p ≡ some c) × (c.task_id ≡ task))
    × ((i : ℕ) (c : Call) → i < n → m.calls i ≡ some c → c.task_id ≡ task → i ≤ p)

abbrev pub Entry : LockManager → String → Option ℕ → Type 0
Entry m task none = (i : ℕ) → Released m task i
Entry m task (some n) =
    ((c : Call) × (m.calls n ≡ some c) × (c.task_id ≡ task) × (is_released c.phase ≡ false))
    × ((i : ℕ) (c : Call) → m.calls i ≡ some c → c.task_id ≡ task → i ≤ n)

pub record Inv (m : LockManager) : Type 0 where
  pub fresh : (i : ℕ) (c : Call) → m.calls i ≡ some c → i < m.next
  pub behind : (n : ℕ) (c : Call) → m.calls n ≡ some c → Behind m c.task_id n c.before
  pub ordered :
      (n : ℕ) (c : Call)
      → m.calls n ≡ some c
      → has_started c.phase ≡ true
      → (i : ℕ) → i < n
      → Released m c.task_id i
  pub entry : (task : String) → Entry m task (lookup task m.locks)

pub lookup-delete :
    (key k : String) (m : Dict ℕ)
    → lookup k (delete key m) ≡ (if key == k then none else lookup k m)
unfolding lookup delete
lookup-delete key k [] = ground arith
lookup-delete key k ((j, n) ∷ m) =
    ground (arith, lookup-delete key k m, eq_iff j key, eq_iff j k, eq_iff key k)

pub put_cases :
    (n : ℕ) (c : Call) (f : ℕ → Option Call) (i : ℕ) (d : Call)
    → put n c f i ≡ some d
    → ((i ≡ n) × (c ≡ d)) ⊎ (f i ≡ some d)
put_cases n c f i d h = elim (Bool-cases (eqb i n)) [
  | inl e ↦ inl (ground arith, some_eq (ground arith))
  | inr e ↦ inr (ground arith)
]

pub put_self : (n : ℕ) (c : Call) (f : ℕ → Option Call) → put n c f n ≡ some c
put_self n c f = ground arith

pub put_other : (n : ℕ) (c : Call) (f : ℕ → Option Call) (i : ℕ) → i ≢ n → put n c f i ≡ f i
put_other n c f i h = elim (Bool-cases (eqb i n)) [
  | inl e ↦ let same : i ≡ n = ground arith in absurd (h same)
  | inr e ↦ rw e refl
]

-- A call moves to a later phase.
module _ (m : LockManager) (n : ℕ) (c : Call) (ph : Phase) (v : Inv m) (at : m.calls n ≡ some c)
    (unreleased : is_released c.phase ≡ false) where
  pub Released-moved :
      (task : String) (i : ℕ) → Released m task i → Released (in_phase n c ph m) task i
  Released-moved task i h d e k = elim (put_cases n (record c { phase = ph }) m.calls i d e) [
    | inr old ↦ h d old k
    | inl (here_it, is_d) ↦
        let task_of : c.task_id ≡ task = ap (λ (x : Call). x.task_id) is_d ∙ k in
        let no : true ≡ false =
          sym (h c (subst (λ j. m.calls j ≡ some c) (sym here_it) at) task_of) ∙ unreleased in
        cc
  ]

  pub moved_exists :
      (p : ℕ) (d : Call)
      → m.calls p ≡ some d
      → (e : Call) × ((in_phase n c ph m).calls p ≡ some e) × (e.task_id ≡ d.task_id)
  moved_exists p d h = elim (Bool-cases (eqb p n)) [
    | inl is_n ↦
        let here_it : p ≡ n = ground arith in
        let is_c : c ≡ d = some_eq (sym at ∙ subst (λ j. m.calls j ≡ some d) here_it h) in
        (record c { phase = ph }, rw is_n refl, ap (λ (x : Call). x.task_id) is_c)
    | inr other ↦ (d, rw other h, refl)
  ]

  pub moved_back :
      (i : ℕ) (d : Call)
      → (in_phase n c ph m).calls i ≡ some d
      → (e : Call) × (m.calls i ≡ some e) × (e.task_id ≡ d.task_id) × (e.before ≡ d.before)
  moved_back i d h = elim (put_cases n (record c { phase = ph }) m.calls i d h) [
    | inr old ↦ (d, old, refl, refl)
    | inl (here_it, is_d) ↦ (
      c,
      subst (λ j. m.calls j ≡ some c) (sym here_it) at,
      ap (λ (x : Call). x.task_id) is_d,
      ap (λ (x : Call). x.before) is_d,
    )
  ]

  pub Behind-moved :
      (task : String) (k : ℕ) (o : Option ℕ)
      → Behind m task k o
      → Behind (in_phase n c ph m) task k o
  Behind-moved task k none h = λ i below. Released-moved task i (h i below)
  Behind-moved task k (some p) (below, (d, held, of_task), greatest) =
      let (e, held', same_task) = moved_exists p d held in
      (
        below,
        (e, held', same_task ∙ of_task),
        λ i f under h k'.
            let (g, back, g_task, g_before) = moved_back i f h in
            greatest i g under back (g_task ∙ k'),
      )

  pub fresh_moved : (i : ℕ) (d : Call) → (in_phase n c ph m).calls i ≡ some d → i < m.next
  fresh_moved i d h = let (e, back, a, b) = moved_back i d h in v.fresh i e back

  pub Behind-in_phase :
      (i : ℕ) (d : Call)
      → (in_phase n c ph m).calls i ≡ some d
      → Behind (in_phase n c ph m) d.task_id i d.before
  Behind-in_phase i d h =
      let (e, back, a, b) = moved_back i d h in
      subst (λ t. Behind (in_phase n c ph m) t i d.before) a
        (subst (λ o. Behind (in_phase n c ph m) e.task_id i o) b
          (Behind-moved e.task_id i e.before (v.behind i e back)))

  module _ (ready : (i : ℕ) → i < n → Released m c.task_id i) where
    pub ordered_moved :
        (k : ℕ) (d : Call)
        → (in_phase n c ph m).calls k ≡ some d
        → has_started d.phase ≡ true
        → (i : ℕ) → i < k
        → Released (in_phase n c ph m) d.task_id i
    ordered_moved k d h begun i under = elim (put_cases n (record c { phase = ph }) m.calls k d h) [
      | inr old ↦ Released-moved d.task_id i (v.ordered k d old begun i under)
      | inl (here_it, is_d) ↦
          subst (λ t. Released (in_phase n c ph m) t i) (ap (λ (x : Call). x.task_id) is_d)
            (Released-moved c.task_id i (ready i (subst (λ j. i < j) here_it under)))
    ]

  pub greatest_moved :
      (task : String) (p : ℕ)
      → ((i : ℕ) (d : Call) → m.calls i ≡ some d → d.task_id ≡ task → i ≤ p)
      → (i : ℕ) (d : Call) → (in_phase n c ph m).calls i ≡ some d
      → d.task_id ≡ task
      → i ≤ p
  greatest_moved task p h i d e k =
      let (g, back, g_task, g_before) = moved_back i d e in h i g back (g_task ∙ k)

  -- The map stays right where it names another call.
  pub Entry-other :
      (task : String) (o : Option ℕ)
      → o ≢ some n
      → Entry m task o
      → Entry (in_phase n c ph m) task o
  Entry-other task none ne h = λ i. Released-moved task i (h i)
  Entry-other task (some p) ne ((d, held, of_task, open_still), greatest) = (
    (
      d,
      put_other n (record c { phase = ph }) m.calls p (λ e. ne (ap some e)) ∙ held,
      of_task,
      open_still,
    ),
    greatest_moved task p greatest,
  )

  pub Entry-live :
      (task : String) (o : Option ℕ)
      → is_released ph ≡ false
      → Entry m task o
      → Entry (in_phase n c ph m) task o
  Entry-live task none live h = λ i. Released-moved task i (h i)
  Entry-live task (some p) live ((d, held, of_task, open_still), greatest) =
      elim (Bool-cases (eqb p n)) [
        | inl is_n ↦
            let here_it : p ≡ n = ground arith in
            let is_c : c ≡ d = some_eq (sym at ∙ subst (λ j. m.calls j ≡ some d) here_it held) in
            (
              (
                record c { phase = ph },
                rw is_n refl,
                ap (λ (x : Call). x.task_id) is_c ∙ of_task,
                live,
              ),
              greatest_moved task p greatest,
            )
        | inr other ↦ ((d, rw other held, of_task, open_still), greatest_moved task p greatest)
      ]

  -- The map names the call only for its own task.
  pub entry_task : (task : String) → lookup task m.locks ≡ some n → c.task_id ≡ task
  entry_task task e =
      let ((d, held, of_task, open_still), greatest) = subst (Entry m task) e (v.entry task) in
      let is_c : c ≡ d = some_eq (sym at ∙ held) in ap (λ (x : Call). x.task_id) is_c ∙ of_task

pub moved-Inv :
    (m : LockManager) (n : ℕ) (c : Call) (ph : Phase)
    → Inv m
    → m.calls n ≡ some c
    → is_released c.phase ≡ false
    → is_released ph ≡ false
    → ((i : ℕ) → i < n → Released m c.task_id i)
    → Inv (in_phase n c ph m)
moved-Inv m n c ph v at unreleased live ready = record {
  fresh = fresh_moved m n c ph v at unreleased;
  behind = Behind-in_phase m n c ph v at unreleased;
  ordered = ordered_moved m n c ph v at unreleased ready;
  entry =
      λ task. Entry-live m n c ph v at unreleased task (lookup task m.locks) live (v.entry task);
}
