-- ===== src/Protocol/Lock/Fifo.antt =====
-- The calls on a task run one at a time, in the order in which they were made.
use aof.Prelude.{
  ℕ, ◌<◌, String, Bool, true, Option, none, some, List, [], ◌∷◌, lookup, eqb, ◌≡◌, refl, sym, subst,
  ◌∙◌, arith, Bool-cases, Option-cases, inl, inr, some_eq,
}
use aof.Protocol.Lock.{
  Phase, waiting, running, settled, released, Call, LockManager, no_locks, is_released, has_started,
  may_start, Event, called, started, ended, freed, start_call, end_call, free_call, on_call, happen,
  run_events,
}
use aof.Protocol.Lock.Chain.{moved-Inv, Released, Behind, Inv}
use aof.Protocol.Lock.Freed.{freed-Inv}
use aof.Protocol.Lock.Made.{called-Inv}

started_of_released : (ph : Phase) → is_released ph ≡ true → has_started ph ≡ true
started_of_released ph h = ground arith

-- A call that may start has only released calls before it.
ready_to_start :
    (m : LockManager) (task : String) (n : ℕ) (o : Option ℕ)
    → Inv m
    → Behind m task n o
    → may_start m o ≡ true
    → (i : ℕ) → i < n
    → Released m task i
ready_to_start m task n none v h may i under e h' k = h i under e h' k
ready_to_start m task n (some p) v (below, (d, held, of_task), greatest) may i under e h k =
    let over : is_released d.phase ≡ true = sym (rw (may_start, held) refl) ∙ may in
    let bound = greatest i e under h k in
    elim (Bool-cases (eqb i p)) [
      | inl is_p ↦
          let here_it : i ≡ p = ground arith in
          let same : d ≡ e = some_eq (sym held ∙ subst (λ j. m.calls j ≡ some e) here_it h) in
          subst (λ (x : Call). is_released x.phase ≡ true) same over
      | inr other ↦
          v.ordered p d held (started_of_released d.phase over) i (ground arith) e h
            (k ∙ sym of_task)
    ]

start-Inv :
    (m : LockManager) (n : ℕ) (c : Call) (ph : Phase)
    → Inv m
    → m.calls n ≡ some c
    → c.phase ≡ ph
    → Inv (start_call n c ph m)
start-Inv m n c waiting v at e = elim (Bool-cases (may_start m c.before)) [
  | inl may ↦ rw may (
      moved-Inv m n c running v at (rw e refl) refl
        (ready_to_start m c.task_id n c.before v (v.behind n c at) may))
  | inr must_wait ↦ rw must_wait v
]
start-Inv m n c running v at e = v
start-Inv m n c released v at e = v
start-Inv m n c (settled ok) v at e = v

end-Inv :
    (m : LockManager) (n : ℕ) (c : Call) (ph : Phase) (ok : Bool)
    → Inv m
    → m.calls n ≡ some c
    → c.phase ≡ ph
    → Inv (end_call n c ph ok m)
end-Inv m n c waiting ok v at e = v
end-Inv m n c running ok v at e =
    moved-Inv m n c (settled ok) v at (rw e refl) refl (v.ordered n c at (rw e refl))
end-Inv m n c released ok v at e = v
end-Inv m n c (settled result) ok v at e = v

free-Inv :
    (m : LockManager) (n : ℕ) (c : Call) (ph : Phase)
    → Inv m
    → m.calls n ≡ some c
    → c.phase ≡ ph
    → Inv (free_call n c ph m)
free-Inv m n c waiting v at e = v
free-Inv m n c running v at e = v
free-Inv m n c released v at e = v
free-Inv m n c (settled ok) v at e = freed-Inv m n c v at (rw e refl) (rw e refl)

on_call-Inv :
    (n : ℕ) (f : Call → LockManager → LockManager) (m : LockManager)
    → Inv m
    → ((c : Call) → m.calls n ≡ some c → Inv (f c m))
    → Inv (on_call n f m)
on_call-Inv n f m v h = elim (Option-cases (m.calls n)) [
  | inl absent ↦ rw (on_call, absent) v
  | inr (c, at) ↦ rw (on_call, at) (h c at)
]

happen-Inv : (e : Event) (m : LockManager) → Inv m → Inv (happen e m)
unfolding happen
happen-Inv (called task) m v = called-Inv m task v
happen-Inv (started n) m v =
    on_call-Inv n (λ c. start_call n c c.phase) m v (λ c at. start-Inv m n c c.phase v at refl)
happen-Inv (ended n ok) m v =
    on_call-Inv n (λ c. end_call n c c.phase ok) m v (λ c at. end-Inv m n c c.phase ok v at refl)
happen-Inv (freed n) m v =
    on_call-Inv n (λ c. free_call n c c.phase) m v (λ c at. free-Inv m n c c.phase v at refl)

run_events-Inv : (es : List Event) (m : LockManager) → Inv m → Inv (run_events es m)
unfolding run_events
run_events-Inv [] m v = v
run_events-Inv (e ∷ es) m v = run_events-Inv es (happen e m) (happen-Inv e m v)

no_locks-Inv : Inv no_locks
unfolding lookup
no_locks-Inv = record {
  fresh = λ i c e. cc;
  behind = λ n c e. cc;
  ordered = λ n c e. cc;
  entry = λ task i c e k. cc;
}

-- After any sequence of events: when a call on a task has started, every earlier call on the task is over and
-- released. So no two calls on a task run at the same time, and they run in the order in which they were made, errors or not.
pub run_events_fifo :
    (es : List Event) (i j : ℕ) (c d : Call)
    → (run_events es no_locks).calls i ≡ some c
    → (run_events es no_locks).calls j ≡ some d
    → c.task_id ≡ d.task_id
    → i < j
    → has_started d.phase ≡ true
    → is_released c.phase ≡ true
run_events_fifo es i j c d at_i at_j same less begun =
    (run_events-Inv es no_locks no_locks-Inv).ordered j d at_j begun i less c at_i same

-- After any sequence of events: a waiting call on a task whose earlier calls are all released can start at once;
-- an error of an earlier call does not hold it up.
pub run_events_starts :
    (es : List Event) (n : ℕ) (c : Call)
    → (run_events es no_locks).calls n ≡ some c
    → ((i : ℕ) (d : Call)
        → i < n
        → (run_events es no_locks).calls i ≡ some d
        → d.task_id ≡ c.task_id
        → is_released d.phase ≡ true)
    → may_start (run_events es no_locks) c.before ≡ true
run_events_starts es n c at over =
    waits_for c.before ((run_events-Inv es no_locks no_locks-Inv).behind n c at)
  where
    waits_for :
        (o : Option ℕ)
        → Behind (run_events es no_locks) c.task_id n o
        → may_start (run_events es no_locks) o ≡ true
    waits_for none h = refl
    waits_for (some p) (below, (d, held, of_task), greatest) =
        rw (may_start, held) (over p d below held of_task)
