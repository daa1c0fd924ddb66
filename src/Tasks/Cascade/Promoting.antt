-- ===== src/Tasks/Cascade/Promoting.antt =====
-- The loop of a completion's cascade.
use mathlib.Core.List.{append-nil, append_assoc}
use aof.Prelude.{
  keep, not, includes-snoc, ℕ, String, Bool, true, false, some, lookup, insert, lookup-insert, List,
  [], ◌∷◌, ◌++◌, ◌≡◌, refl, sym, ◌∙◌, subst, arith, ◌==◌, Bool-cases, inl, inr, ◌⊎◌, includes,
  eq_refl, All, text-cases,
}
use aof.Tasks.Schema.{
  TaskStatus, backlog, ready, same, one_of, Task, is_valid_transition, valid_transitions,
}
use aof.Tasks.Store.{
  Store, return, transition_task, no_patch, transitioned, transition_returns, get_task,
  settle_transition,
}
use aof.Tasks.Cascade.{CascadeResult, list_tasks, all_done, promote_each}

-- Every task of the listing is the one that the store finds under its identifier.
abbrev pub IsListed : Store → Type 0
IsListed s = All (λ t. lookup t.id s ≡ some t) (list_tasks s)

abbrev pub IsReady : Store → String → Type 0
IsReady s id = (t : Task) × (lookup id s ≡ some t) × (t.id ≡ id) × (t.status ≡ ready)

-- As the loop finds a task: as it was listed, or already ready.
abbrev pub Waits : Store → Task → Type 0
Waits s t = (lookup t.id s ≡ some t) ⊎ IsReady s t.id

abbrev pub ids_of : List Task → List String
ids_of [] = []
ids_of (t ∷ ts) = t.id ∷ ids_of ts

abbrev pub waiting : Task → Bool
waiting t = one_of t.status (backlog ∷ TaskStatus.blocked ∷ [])

-- What a step to `s'` does: the task `id` is ready there, and the others are as they were.
abbrev Readies : Store → String → Store → Type 0
Readies s id s' = IsReady s' id × ((j : String) → (id == j) ≡ false → lookup j s' ≡ lookup j s)

stays_ready :
    (now : ℕ) (s : Store) (id : String) (u : Task)
    → lookup id s ≡ some u
    → u.status ≡ ready
    → transition_task now id ready no_patch s ≡ (return u, s)
unfolding transition_task get_task settle_transition
stays_ready now s id u found e =
    let a : same u.status ready ≡ true = rw e refl in
    simp (transition_task, get_task, settle_transition, found, a)

promote_step :
    (now : ℕ) (s : Store) (t : Task)
    → Waits s t
    → waiting t ≡ true
    → (u : Task) × (s' : Store) × (transition_task now t.id ready no_patch s ≡ (return u, s'))
      × Readies s t.id s'
unfolding transitioned is_valid_transition valid_transitions
promote_step now s t (inl found) w =
    let u = transitioned now ready no_patch t in
    let moves : same t.status ready ≡ false = ground arith in
    let valid : is_valid_transition t.status ready ≡ true = ground arith in
    (
      u,
      insert t.id u s,
      transition_returns now t.id ready no_patch s t found moves valid,
      (
        (u, lookup-insert t.id t.id u s ∙ rw (eq_refl t.id) refl, refl, refl),
        λ j other. lookup-insert t.id j u s ∙ rw other refl,
      ),
    )
promote_step now s t (inr (u, found, key, is_ready)) w =
    (u, s, stays, ((u, found, key, is_ready), λ j other. refl))
  where
    stays : transition_task now t.id ready no_patch s ≡ (return u, s)
    stays = stays_ready now s t.id u found is_ready

promote_each-freed :
    (now : ℕ) (all ts : List Task) (t u : Task) (r : CascadeResult) (s s1 : Store)
    → all_done all t ≡ true
    → transition_task now t.id ready no_patch s ≡ (return u, s1)
    → promote_each now all (t ∷ ts) r s
      ≡ promote_each now all ts (record r { promoted = r.promoted ++ t.id ∷ [] }) s1
unfolding promote_each
promote_each-freed now all ts t u r s s1 free moved = rw (free, promote_each) (rw moved refl)

promote_each-held :
    (now : ℕ) (all ts : List Task) (t : Task) (r : CascadeResult) (s : Store)
    → all_done all t ≡ false
    → promote_each now all (t ∷ ts) r s
      ≡ promote_each now all ts (record r { skipped = r.skipped ++ t.id ∷ [] }) s
unfolding promote_each
promote_each-held now all ts t r s held = rw (held, promote_each) refl

-- What the loop over `ts` does, from the result `r` and the store `s` on.
pub record Effect (all ts : List Task) (r r' : CascadeResult) (s s' : Store) : Type 0 where
  pub promoted_eq : r'.promoted ≡ r.promoted ++ ids_of (keep (all_done all) ts)
  pub skipped_eq : r'.skipped ≡ r.skipped ++ ids_of (keep (λ t. not (all_done all t)) ts)
  pub stays : (j : String) → IsReady s j → IsReady s' j
  pub promotes :
      (j : String) → includes j r'.promoted ≡ true → (includes j r.promoted ≡ true) ⊎ IsReady s' j
  pub frame : (j : String) → includes j r'.promoted ≡ false → lookup j s' ≡ lookup j s
  pub grows : (j : String) → includes j r.promoted ≡ true → includes j r'.promoted ≡ true

Readies-IsReady : (s s' : Store) (id j : String) → Readies s id s' → IsReady s j → IsReady s' j
Readies-IsReady s s' id j (now_ready, others) (u, found, key, e) = elim (text-cases id j) [
  | inl same_id ↦ subst (IsReady s') same_id now_ready
  | inr other ↦ (u, others j other ∙ found, key, e)
]

Readies-Waits : (s s' : Store) (id : String) (t : Task) → Readies s id s' → Waits s t → Waits s' t
Readies-Waits s s' id t (now_ready, others) w = elim (text-cases id t.id) [
  | inl same_id ↦ inr (subst (IsReady s') same_id now_ready)
  | inr other ↦ elim w [
    | inl listed ↦ inl (others t.id other ∙ listed)
    | inr (u, found, key, e) ↦ inr (u, others t.id other ∙ found, key, e)
  ]
]

Readies-All :
    (s s' : Store) (id : String) (ts : List Task)
    → Readies s id s'
    → All (Waits s) ts
    → All (Waits s') ts
Readies-All s s' id [] step w = tt
Readies-All s s' id (t ∷ ts) step (w, ws) =
    (Readies-Waits s s' id t step w, Readies-All s s' id ts step ws)

pub promote_each_lem :
    (now : ℕ) (all ts : List Task) (r : CascadeResult) (s : Store)
    → All (Waits s) ts
    → All (λ t. waiting t ≡ true) ts
    → (r' : CascadeResult) × (s' : Store) × (promote_each now all ts r s ≡ (return r', s'))
      × Effect all ts r r' s s'
unfolding promote_each
promote_each_lem now all [] r s w ok = (
  r,
  s,
  refl,
  record {
    promoted_eq = sym (append-nil r.promoted);
    skipped_eq = sym (append-nil r.skipped);
    stays = λ j h. h;
    promotes = λ j h. inl h;
    frame = λ j h. refl;
    grows = λ j h. h;
  },
)
promote_each_lem now all (t ∷ ts) r s (w, ws) (fit, fits) = elim (Bool-cases (all_done all t)) [
  | inl free ↦
      let (u, s1, moved, step) = promote_step now s t w fit in
      let r1 : CascadeResult = record r { promoted = r.promoted ++ t.id ∷ [] } in
      let (r', s', runs, e) =
        promote_each_lem now all ts r1 s1 (Readies-All s s1 t.id ts step ws) fits in
      let listed : includes t.id r'.promoted ≡ true =
        e.grows t.id (includes-snoc t.id t.id r.promoted ∙ ground (arith, eq_refl t.id)) in
      (
        r',
        s',
        promote_each-freed now all ts t u r s s1 free moved ∙ runs,
        record {
          promoted_eq = e.promoted_eq ∙ simp (free, append_assoc);
          skipped_eq = e.skipped_eq ∙ simp (free);
          grows = λ j h. e.grows j (includes-snoc j t.id r.promoted ∙ rw h refl);
          stays = λ j h. e.stays j (Readies-IsReady s s1 t.id j step h);
          promotes = λ j h. elim (e.promotes j h) [
            | inr now_ready ↦ inr now_ready
            | inl before ↦ elim (text-cases t.id j) [
              | inl same_id ↦ inr (e.stays j (subst (IsReady s1) same_id step.0))
              | inr other ↦ inl (ground (arith, includes-snoc j t.id r.promoted))
            ]
          ];
          frame = λ j h. elim (text-cases t.id j) [
            | inl same_id ↦ cc
            | inr other ↦ e.frame j h ∙ step.1 j other
          ];
        },
      )
  | inr held ↦
      let r1 : CascadeResult = record r { skipped = r.skipped ++ t.id ∷ [] } in
      let (r', s', runs, e) = promote_each_lem now all ts r1 s ws fits in
      (
        r',
        s',
        promote_each-held now all ts t r s held ∙ runs,
        record {
          promoted_eq = e.promoted_eq ∙ simp (held);
          skipped_eq = e.skipped_eq ∙ simp (held, append_assoc);
          grows = e.grows;
          stays = e.stays;
          promotes = e.promotes;
          frame = e.frame;
        },
      )
]
