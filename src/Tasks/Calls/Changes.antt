-- ===== src/Tasks/Calls/Changes.antt =====
-- What one operation does to the store: nothing, or one task replaced by an allowed one.
use aof.Prelude.{
  ℕ, String, Bool, true, false, not, ◌&&◌, ◌||◌, Option, none, some, lookup, insert, [], ◌∷◌,
  lookup-insert, ◌≡◌, sym, ◌∙◌, subst, some_eq, Bool-cases, arith, if◌then◌else◌, ◌==◌, inl, inr,
  ◌⊎◌, eq_iff, eq_refl,
}
use aof.Tasks.Schema.{
  TaskStatus, done, cancelled, same, one_of, Task, TaskLease, is_valid_transition, Metadata,
  valid_transitions,
}
use aof.Tasks.Store.{
  Store, get_task, write_task, clears_lease, transitioned, settle_transition, transition_task,
}

-- The statuses that no operation leaves.
abbrev pub is_over : TaskStatus → Bool
is_over s = one_of s (done ∷ cancelled ∷ [])

abbrev pub is_absent : Option TaskLease → Bool
is_absent none = true
is_absent (some _) = false

-- A task that is done, ready or in the backlog has no lease.
abbrev pub lease_fits : Task → Bool
lease_fits t = not (clears_lease t.status) || is_absent t.lease

abbrev pub allowed : Task → Task → Bool
allowed t t' =
    (t'.id == t.id)
    && (not (is_over t.status) || same t.status t'.status)
    && (not (lease_fits t) || lease_fits t')

-- The task `id` becomes `t'`, and the others stay.
abbrev pub Replaced : Store → String → Task → Store → Type 0
Replaced s id t' s' = (j : String) → lookup j s' ≡ (if id == j then some t' else lookup j s)

abbrev pub Changed : Store → String → Store → Type 0
Changed s id s' =
    (s' ≡ s)
    ⊎ ((t : Task) × (t' : Task) × (lookup id s ≡ some t)
        × (allowed t t' ≡ true)
        × Replaced s id t' s')

moved_allowed :
    (now : ℕ) (to : TaskStatus) (patch : Metadata → Metadata) (t : Task)
    → is_valid_transition t.status to ≡ true
    → allowed t (transitioned now to patch t) ≡ true
unfolding is_valid_transition valid_transitions transitioned
moved_allowed now to patch t h = ground (arith, eq_refl t.id)

allowed_trans : (t u v : Task) → allowed t u ≡ true → allowed u v ≡ true → allowed t v ≡ true
allowed_trans t u v h k = ground (arith, eq_iff u.id t.id, eq_iff v.id u.id, eq_iff v.id t.id)

pub write-Changed :
    (s : Store) (id : String) (t t' : Task)
    → lookup id s ≡ some t
    → t.id ≡ id
    → allowed t t' ≡ true
    → Changed s id (insert t'.id t' s)
write-Changed s id t t' found keyed h =
    let same_id : t'.id ≡ id = ground (arith, eq_iff t'.id t.id) in
    inr (t, t', found, h, λ j. lookup-insert t'.id j t' s ∙ rw same_id)

pub Changed-trans :
    (s s1 s2 : Store) (id : String) → Changed s id s1 → Changed s1 id s2 → Changed s id s2
Changed-trans s s1 s2 id (inl e) k = subst (λ x. Changed x id s2) e k
Changed-trans s s1 s2 id h (inl e) = subst (λ x. Changed s id x) (sym e) h
Changed-trans s s1 s2 id (inr (t, u, found, h, r)) (inr (u', v, found', k, q)) =
    let agree : u' ≡ u = some_eq (sym found' ∙ r id ∙ rw (eq_refl id)) in
    inr (
      t,
      v,
      found,
      allowed_trans t u v h (subst (λ x. allowed x v ≡ true) agree k),
      λ j. ground (arith, r j, q j),
    )

pub transition-Changed :
    (now : ℕ) (id : String) (to : TaskStatus) (patch : Metadata → Metadata) (s : Store) (t : Task)
    → lookup id s ≡ some t
    → t.id ≡ id
    → Changed s id (transition_task now id to patch s).1
unfolding transition_task get_task settle_transition write_task
transition-Changed now id to patch s t found keyed = elim (Bool-cases (same t.status to)) [
  | inl stays ↦ inl (ground arith)
  | inr moves ↦ elim (Bool-cases (is_valid_transition t.status to)) [
    | inl valid ↦
        subst (λ x. Changed s id x) (ground arith)
          (write-Changed s id t (transitioned now to patch t) found keyed
            (moved_allowed now to patch t valid))
    | inr invalid ↦ inl (ground arith)
  ]
]
