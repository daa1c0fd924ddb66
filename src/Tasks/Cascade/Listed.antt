-- ===== src/Tasks/Cascade/Listed.antt =====
-- The dependents of a task in the listing, and when their dependencies are done.
use mathlib.Core.List.{Memᴰ}
use aof.Prelude.{
  String, Bool, true, false, not, ◌&&◌, none, some, lookup, List, [], ◌∷◌, ◌≡◌, refl, sym, ◌∙◌, ap,
  arith, subst, ◌==◌, ◌⊎◌, inl, inr, ◌↔◌, Bool-cases, Option-cases, text-cases, eq_iff, some_eq,
  every, keep, includes, All, All-get, find_of_mem, find-passes,
}
use aof.Tasks.Schema.{TaskStatus, backlog, done, same, one_of, Task}
use aof.Tasks.Promotion.{find_task}
use aof.Tasks.Store.{Store}
use aof.Tasks.Cascade.{list_tasks, dependents, all_done}
use aof.Tasks.Cascade.Promoting.{IsListed, ids_of, waiting}

-- A listed task has the identifier, and is done.
abbrev pub IsDone : List Task → String → Type 0
IsDone all id = (u : Task) × Memᴰ u all × (u.id ≡ id) × (u.status ≡ done)

abbrev pub IsWaiting : TaskStatus → Type 0
IsWaiting st = (st ≡ backlog) ⊎ (st ≡ TaskStatus.blocked)

-- The listed task `t` is the one with identifier `j`, and waits directly for `id`.
abbrev pub Awaits : String → List Task → String → Task → Type 0
Awaits id all j t = Memᴰ t all × (t.id ≡ j) × Memᴰ id t.depends_on × IsWaiting t.status

includes-Memᴰ : (id : String) (xs : List String) → includes id xs ≡ true → Memᴰ id xs
includes-Memᴰ id [] h = cc
includes-Memᴰ id (x ∷ xs) h = elim (text-cases x id) [
  | inl e ↦ Memᴰ.head (sym e)
  | inr e ↦ Memᴰ.tail (includes-Memᴰ id xs (ground arith))
]

Memᴰ-includes : (id : String) (xs : List String) → Memᴰ id xs → includes id xs ≡ true
Memᴰ-includes id [] m = elim m [ ]
Memᴰ-includes id (x ∷ xs) (Memᴰ.head e) = ground (arith, eq_iff x id)
Memᴰ-includes id (x ∷ xs) (Memᴰ.tail m) = ground (arith, Memᴰ-includes id xs m)

waiting-IsWaiting : (t : Task) → waiting t ≡ true → IsWaiting t.status
waiting-IsWaiting t h = go t.status h
  where
    go : (st : TaskStatus) → one_of st (backlog ∷ TaskStatus.blocked ∷ []) ≡ true → IsWaiting st
    go st h = ground arith

IsWaiting-waiting : (t : Task) → IsWaiting t.status → waiting t ≡ true
IsWaiting-waiting t (inl e) = rw e refl
IsWaiting-waiting t (inr e) = rw e refl

abbrev sts : List TaskStatus
sts = backlog ∷ TaskStatus.blocked ∷ []

-- Which identifiers a selection of the dependents holds.
abbrev Picked : (Task → Bool) → String → List Task → String → Type 0
Picked p id ts j = (t : Task) × Awaits id ts j t × (p t ≡ true)

later :
    (p : Task → Bool) (id j : String) (x : Task) (ts : List Task)
    → Picked p id ts j
    → Picked p id (x ∷ ts) j
later p id j x ts (t, (m, key, dep, waits), e) = (t, (Memᴰ.tail m, key, dep, waits), e)

keeps_one :
    (id : String) (t : Task) (ts : List Task)
    → (includes id t.depends_on && waiting t) ≡ true
    → dependents id sts (t ∷ ts) ≡ t ∷ dependents id sts ts
unfolding dependents
keeps_one id t ts h = rw (dependents, h) refl

leaves_one :
    (id : String) (t : Task) (ts : List Task)
    → (includes id t.depends_on && waiting t) ≡ false
    → dependents id sts (t ∷ ts) ≡ dependents id sts ts
unfolding dependents
leaves_one id t ts h = rw (dependents, h) refl

pub includes-Picked :
    (p : Task → Bool) (id j : String) (ts : List Task)
    → includes j (ids_of (keep p (dependents id sts ts))) ≡ true
    → Picked p id ts j
unfolding dependents
includes-Picked p id j [] h = cc
includes-Picked p id j (t ∷ ts) h = elim (Bool-cases (includes id t.depends_on && waiting t)) [
  | inr left ↦ later p id j t ts (
      includes-Picked p id j ts
        (subst (λ x. includes j (ids_of (keep p x)) ≡ true) (leaves_one id t ts left) h))
  | inl kept ↦
      let h1 = subst (λ x. includes j (ids_of (keep p x)) ≡ true) (keeps_one id t ts kept) h in
      elim (Bool-cases (p t)) [
        | inr fails ↦ later p id j t ts (includes-Picked p id j ts (ground arith))
        | inl passes ↦ elim (text-cases t.id j) [
          | inr other ↦ later p id j t ts (includes-Picked p id j ts (ground arith))
          | inl same_id ↦ (
            t,
            (
              Memᴰ.head refl,
              same_id,
              includes-Memᴰ id t.depends_on (ground arith),
              waiting-IsWaiting t (ground arith),
            ),
            passes,
          )
        ]
      ]
]

pub Picked-includes :
    (p : Task → Bool) (id j : String) (ts : List Task)
    → Picked p id ts j
    → includes j (ids_of (keep p (dependents id sts ts))) ≡ true
unfolding dependents
Picked-includes p id j [] (t, (m, key, dep, waits), e) = elim m [ ]
Picked-includes p id j (x ∷ ts) (t, (Memᴰ.head same_task, key, dep, waits), e) =
    let a : includes id x.depends_on ≡ true =
      subst (λ (y : Task). includes id y.depends_on ≡ true) same_task
        (Memᴰ-includes id t.depends_on dep) in
    let b : waiting x ≡ true =
      subst (λ (y : Task). waiting y ≡ true) same_task (IsWaiting-waiting t waits) in
    let c : p x ≡ true = subst (λ (y : Task). p y ≡ true) same_task e in
    let d : (x.id == j) ≡ true = (eq_iff x.id j).1 (subst (λ (y : Task). y.id ≡ j) same_task key) in
    subst (λ y. includes j (ids_of (keep p y)) ≡ true) (sym (keeps_one id x ts (rw (a, b) refl)))
      (rw c (rw d refl))
Picked-includes p id j (x ∷ ts) (t, (Memᴰ.tail m, key, dep, waits), e) =
    let h = Picked-includes p id j ts (t, (m, key, dep, waits), e) in
    elim (Bool-cases (includes id x.depends_on && waiting x)) [
      | inr left ↦
          subst (λ y. includes j (ids_of (keep p y)) ≡ true) (sym (leaves_one id x ts left)) h
      | inl kept ↦
          subst (λ y. includes j (ids_of (keep p y)) ≡ true) (sym (keeps_one id x ts kept))
            (elim (Bool-cases (p x)) [
              | inr fails ↦ rw fails h
              | inl passes ↦ rw passes (ground arith)
            ])
    ]

same_done : (st : TaskStatus) → same st done ≡ true → st ≡ done
same_done st h = ground arith

abbrev done_in : List Task → String → Bool
done_in all d = elim (find_task d all) [ none ↦ false | some u ↦ same u.status done ]

done_in-IsDone : (all : List Task) (d : String) → done_in all d ≡ true → IsDone all d
unfolding find_task
done_in-IsDone all d h = elim (Option-cases (find_task d all)) [
  | inl missing ↦ ground arith
  | inr (u, found) ↦
      let (key, m) = find-passes (λ t. t.id == d) all found in
      let ends : same u.status done ≡ true = ground arith in
      (u, m, (eq_iff u.id d).0 key, same_done u.status ends)
]

done_in_found :
    (all : List Task) (d : String) (y : Task)
    → find_task d all ≡ some y
    → y.status ≡ done
    → done_in all d ≡ true
done_in_found all d y found ends = rw (found, done_in) (rw ends refl)

IsDone-done_in :
    (s : Store) (d : String)
    → IsListed s
    → IsDone (list_tasks s) d
    → done_in (list_tasks s) d ≡ true
unfolding find_task
IsDone-done_in s d listed (u, m, key, ends) =
    let (y, found) = find_of_mem (λ t. t.id == d) m ((eq_iff u.id d).1 key) in
    let (y_key, y_in) = find-passes (λ t. t.id == d) (list_tasks s) found in
    let at_u = All-get (λ t. lookup t.id s ≡ some t) m listed in
    let at_y = All-get (λ t. lookup t.id s ≡ some t) y_in listed in
    let same_key : y.id ≡ u.id = (eq_iff y.id d).0 y_key ∙ sym key in
    let same_task : y ≡ u = some_eq (sym at_y ∙ ap (λ k. lookup k s) same_key ∙ at_u) in
    done_in_found (list_tasks s) d y found (ap (λ (x : Task). x.status) same_task ∙ ends)

every-IsDone :
    (all : List Task) (ds : List String) → every (done_in all) ds ≡ true → All (IsDone all) ds
every-IsDone all [] h = tt
every-IsDone all (d ∷ ds) h =
    (done_in-IsDone all d (ground arith), every-IsDone all ds (ground arith))

IsDone-every :
    (s : Store) (ds : List String)
    → IsListed s
    → All (IsDone (list_tasks s)) ds
    → every (done_in (list_tasks s)) ds ≡ true
IsDone-every s [] listed h = refl
IsDone-every s (d ∷ ds) listed (h, hs) =
    rw (IsDone-done_in s d listed h) (IsDone-every s ds listed hs)

module _ (s : Store) (id j : String) (listed : IsListed s) where
  -- The selection of those whose dependencies are all done, and of the others.
  pub promoted_iff :
      (includes j (ids_of (keep (all_done (list_tasks s)) (dependents id sts (list_tasks s))))
        ≡ true)
      ↔ ((t : Task) × Awaits id (list_tasks s) j t × All (IsDone (list_tasks s)) t.depends_on)
  unfolding all_done
  promoted_iff = (
    λ h.
        let (t, waits, free) = includes-Picked (all_done (list_tasks s)) id j (list_tasks s) h in
        (t, waits, every-IsDone (list_tasks s) t.depends_on free),
    λ (t, waits, free).
        Picked-includes (all_done (list_tasks s)) id j (list_tasks s)
          (t, waits, IsDone-every s t.depends_on listed free),
  )

  pub skipped_iff :
      (includes j
          (ids_of (keep (λ t. not (all_done (list_tasks s) t)) (dependents id sts (list_tasks s))))
        ≡ true)
      ↔ ((t : Task) × Awaits id (list_tasks s) j t × ¬ All (IsDone (list_tasks s)) t.depends_on)
  unfolding all_done
  skipped_iff = (
    λ h.
        let (t, waits, held) =
          includes-Picked (λ t. not (all_done (list_tasks s) t)) id j (list_tasks s) h in
        (t, waits, λ free. cc (IsDone-every s t.depends_on listed free)),
    λ (t, waits, held).
        Picked-includes (λ t. not (all_done (list_tasks s) t)) id j (list_tasks s)
          (
            t,
            waits,
            elim (Bool-cases (every (done_in (list_tasks s)) t.depends_on)) [
              | inl free ↦ absurd (held (every-IsDone (list_tasks s) t.depends_on free))
              | inr open_one ↦ rw open_one refl
            ],
          ),
  )
