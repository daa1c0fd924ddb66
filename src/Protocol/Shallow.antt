-- ===== src/Protocol/Shallow.antt =====
-- The actions that the router takes keep the depths of delegation.
use aof.Prelude.{
  ℕ, ◌≤◌, String, Bool, true, false, some, List, [], ◌∷◌, ◌++◌, lookup, lookup-insert,
  if◌then◌else◌, ◌≡◌, subst, arith, eq_iff, Bool-cases, Option-cases, text-cases, inl, inr, some_eq,
  concat,
}
use aof.Tasks.Schema.{TaskStatus, same, one_of, Task}
use aof.Tasks.Store.{
  Store, StoreError, and_then, Answer, return, throw, Action, ◌>>=◌, ◌>>◌, pure, fail, refuse_if,
  get_task, write_task, settle_transition, transitioned, transition_task, no_patch, already_blocked,
  in_terminal_state,
}
use aof.Tasks.Lifecycle.{set_block_reason, block_task}
use aof.Tasks.Failures.{or_zero}
use aof.Tasks.Cascade.{
  CascadeResult, list_tasks, all_done, promote_each, cascade_on_completion, block_each,
  cascade_on_block,
}

-- A task that was delegated at most once.
abbrev pub IsShallow : Task → Type 0
IsShallow t = or_zero t.metadata.delegation_depth ≤ 1

abbrev pub AllShallow : Store → Type 0
AllShallow s = (id : String) (t : Task) → lookup id s ≡ some t → IsShallow t

abbrev pub Holds : {A : Type 0} → (A → Type 0) → Answer A → Type 0
Holds Q (return a) = Q a
Holds Q (throw e) = Unit

-- An action keeps the store's tasks shallow, and its result has a property.
pub record Safe {A : Type 0} (Q : A → Type 0) (m : Action A) : Type 0 where
  pub keeps : (s : Store) → AllShallow s → Holds Q (m s).0 × AllShallow (m s).1

abbrev pub Any : {A : Type 0} → A → Type 0
Any a = Unit

pub Safe-bind :
    {A B : Type 0} (Q : A → Type 0) (R : B → Type 0) (m : Action A) (f : A → Action B)
    → Safe Q m
    → ((a : A) → Q a → Safe R (f a))
    → Safe R (m >>= f)
Safe-bind Q R m f h k = record {
  keeps = λ s g. next (m s).0 (m s).1 (h.keeps s g).0 (h.keeps s g).1;
}
  where
    next :
        (a : Answer _) (s' : Store)
        → Holds Q a
        → AllShallow s'
        → Holds R (and_then a f s').0 × AllShallow (and_then a f s').1
    next (return a) s' q g' = (k a q).keeps s' g'
    next (throw e) s' q g' = (tt, g')

pub Safe-then :
    {A B : Type 0} (Q : A → Type 0) (R : B → Type 0) (m : Action A) (n : Action B)
    → Safe Q m
    → Safe R n
    → Safe R (m >> n)
Safe-then Q R m n h k = Safe-bind Q R m (λ a. n) h (λ a q. k)

pub get_task-Safe : (id : String) → Safe IsShallow (get_task id)
unfolding get_task
get_task-Safe id = record {
  keeps = λ s g. elim (Option-cases (lookup id s)) [
    | inl absent ↦ rw (get_task, absent) (tt, g)
    | inr (t, found) ↦ rw (get_task, found) (g id t found, g)
  ];
}

pub write_task-Safe : (t : Task) → IsShallow t → Safe Any (write_task t)
unfolding write_task
write_task-Safe t h = record {
  keeps = λ s g. (
    tt,
    λ id u e. elim (text-cases t.id id) [
      | inl is_it ↦
          let held : t ≡ u = some_eq (ground (arith, lookup-insert t.id id t s, eq_iff t.id id)) in
          subst IsShallow held h
      | inr other ↦ g id u (ground (arith, lookup-insert t.id id t s))
    ],
  );
}

refuse_if-Safe : (b : Bool) (e : StoreError) → Safe Any (refuse_if b e)
refuse_if-Safe true e = record { keeps = λ s g. (tt, g) }
refuse_if-Safe false e = record { keeps = λ s g. (tt, g) }

pub pure-Safe : {A : Type 0} (Q : A → Type 0) (a : A) → Q a → Safe Q (pure a)
pure-Safe Q a h = record { keeps = λ s g. (h, g) }

fail-Safe : {A : Type 0} (Q : A → Type 0) (e : StoreError) → Safe Q (fail e)
fail-Safe Q e = record { keeps = λ s g. (tt, g) }

pub if-Safe :
    {A : Type 0} (Q : A → Type 0) (b : Bool) (m n : Action A)
    → Safe Q m
    → Safe Q n
    → Safe Q (if b then m else n)
if-Safe Q true m n h k = h
if-Safe Q false m n h k = k

pub transition-Safe :
    (now : ℕ) (id : String) (to : TaskStatus) → Safe IsShallow (transition_task now id to no_patch)
unfolding transition_task settle_transition transitioned
transition-Safe now id to =
    Safe-bind IsShallow IsShallow (get_task id) (settle_transition now to no_patch)
      (get_task-Safe id)
      (λ t h. if-Safe IsShallow _ (pure t) _ (pure-Safe IsShallow t h) (
        if-Safe IsShallow _ _ (fail _)
          (Safe-then Any IsShallow (write_task (transitioned now to no_patch t))
            (pure (transitioned now to no_patch t))
            (write_task-Safe (transitioned now to no_patch t) h)
            (pure-Safe IsShallow (transitioned now to no_patch t) h))
          (fail-Safe IsShallow _)))

pub block_task-Safe : (now : ℕ) (id reason : String) → Safe IsShallow (block_task now id reason)
unfolding block_task
block_task-Safe now id reason =
    Safe-bind IsShallow IsShallow (get_task id) _ (get_task-Safe id) (λ t h.
      let w : Task = record t { metadata = set_block_reason (some reason) t.metadata } in
      let moves = transition_task now id TaskStatus.blocked no_patch in
      let blocks = same t.status TaskStatus.blocked in
      let over =
        one_of t.status (TaskStatus.done ∷ TaskStatus.cancelled ∷ TaskStatus.deadletter ∷ []) in
      Safe-then Any IsShallow (refuse_if blocks already_blocked)
        (refuse_if over (in_terminal_state t.status) >> (write_task w >> moves))
        (refuse_if-Safe blocks already_blocked)
        (Safe-then Any IsShallow (refuse_if over (in_terminal_state t.status))
          (write_task w >> moves) (refuse_if-Safe over (in_terminal_state t.status))
          (Safe-then Any IsShallow (write_task w) moves (write_task-Safe w h)
            (transition-Safe now id TaskStatus.blocked))))

promote_each-Safe :
    (now : ℕ) (all ts : List Task) (r : CascadeResult) → Safe Any (promote_each now all ts r)
unfolding promote_each
promote_each-Safe now all [] r = pure-Safe Any r tt
promote_each-Safe now all (t ∷ ts) r = elim (Bool-cases (all_done all t)) [
  | inl promotes ↦
      rw (promote_each, promotes)
        (Safe-bind IsShallow Any _ _ (transition-Safe now t.id TaskStatus.ready)
          (λ u h. promote_each-Safe now all ts (record r { promoted = r.promoted ++ t.id ∷ [] })))
  | inr skips ↦
      rw (promote_each, skips)
        (promote_each-Safe now all ts (record r { skipped = r.skipped ++ t.id ∷ [] }))
]

block_each-Safe :
    (now : ℕ) (reason : String) (ts : List Task) (r : CascadeResult)
    → Safe Any (block_each now reason ts r)
unfolding block_each
block_each-Safe now reason [] r = pure-Safe Any r tt
block_each-Safe now reason (t ∷ ts) r =
    Safe-bind IsShallow Any _ _ (block_task-Safe now t.id reason)
      (λ u h. block_each-Safe now reason ts (record r { blocked = r.blocked ++ t.id ∷ [] }))

pub cascade_on_completion-Safe : (now : ℕ) (id : String) → Safe Any (cascade_on_completion now id)
unfolding cascade_on_completion
cascade_on_completion-Safe now id = record {
  keeps = λ s g. (promote_each-Safe now (list_tasks s) _ _).keeps s g;
}

pub cascade_on_block-Safe : (now : ℕ) (id : String) → Safe Any (cascade_on_block now id)
unfolding cascade_on_block
cascade_on_block-Safe now id = record {
  keeps = λ s g. (block_each-Safe now (concat "upstream blocked: " id) _ _).keeps s g;
}
