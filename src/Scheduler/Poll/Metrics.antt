-- ===== src/Scheduler/Poll/Metrics.antt =====
-- What the maps and counts of a poll say of the listing.
use aof.Prelude.{
  String, Bool, true, false, not, Option, none, some, List, [], ◌∷◌, ◌++◌, Dict, lookup, insert,
  lookup-insert, mem_of_lookup, any_of, includes, ◌≡◌, refl, subst, sym, ap, ◌∙◌, arith, eq_iff,
  eq_refl, if◌then◌else◌, ◌==◌, Bool-cases, Option-cases, text-cases, inl, inr,
}
use mathlib.Core.List.{Memᴰ}
use mathlib.Core.List.Memᴰ
use aof.Tasks.Schema.{TaskStatus, in_progress, done, same, Task}
use aof.Tasks.Promotion.{children_of, truthy}
use aof.Scheduler.{
  having_status, add_to_parent, add_children, build_children_map, occupy, occupy_each,
  build_resource_occupancy_map,
}
use aof.Scheduler.Poll.{blocked_by_subtasks}

-- The resource has a holder.
abbrev pub is_held : String → Dict String → Bool
is_held r m = elim (lookup r m) [ none ↦ false | some holder ↦ true ]

children_of-insert :
    (parent k : String) (ts : List Task) (m : Dict (List Task))
    → children_of (insert parent ts m) k ≡ (if parent == k then ts else children_of m k)
children_of-insert parent k ts m = ground (arith, lookup-insert parent k ts m)

add_to_parent_keeps :
    (t u : Task) (o : Option String) (m : Dict (List Task)) (k : String)
    → Memᴰ u (children_of m k)
    → Memᴰ u (children_of (add_to_parent t o m) k)
add_to_parent_keeps t u none m k h = h
add_to_parent_keeps t u (some parent) m k h = elim (Bool-cases (truthy (some parent))) [
  | inr empty ↦ rw empty h
  | inl given ↦ rw given (
      rw (children_of-insert parent k (children_of m parent ++ t ∷ []) m)
        (elim (text-cases parent k) [
          | inl e ↦
              let at : (parent == k) ≡ true = ground (arith, eq_iff parent k) in
              rw at (Memᴰ.append_left (t ∷ []) (subst (λ j. Memᴰ u (children_of m j)) (sym e) h))
          | inr other ↦ rw other h
        ]))
]

add_to_parent_adds :
    (t : Task) (k : String) (m : Dict (List Task))
    → truthy (some k) ≡ true
    → Memᴰ t (children_of (add_to_parent t (some k) m) k)
add_to_parent_adds t k m h = rw h (
    rw (children_of-insert k k (children_of m k ++ t ∷ []) m)
      (rw (eq_refl k) (Memᴰ.append_right (children_of m k) (Memᴰ.head refl))))

add_children_keeps :
    (ts : List Task) (u : Task) (m : Dict (List Task)) (k : String)
    → Memᴰ u (children_of m k)
    → Memᴰ u (children_of (add_children ts m) k)
unfolding add_children
add_children_keeps [] u m k h = h
add_children_keeps (t ∷ ts) u m k h =
    add_children_keeps ts u (add_to_parent t t.parent_id m) k
      (add_to_parent_keeps t u t.parent_id m k h)

-- The map has every child under its parent.
add_children_adds :
    (ts : List Task) (u : Task) (m : Dict (List Task)) (k : String)
    → Memᴰ u ts
    → u.parent_id ≡ some k
    → truthy (some k) ≡ true
    → Memᴰ u (children_of (add_children ts m) k)
unfolding add_children
add_children_adds [] u m k i e h = elim i [ ]
add_children_adds (t ∷ ts) u m k (Memᴰ.head is_t) e h =
    add_children_keeps ts u (add_to_parent t t.parent_id m) k (
      subst (λ v. Memᴰ u (children_of (add_to_parent v v.parent_id m) k)) is_t
        (subst (λ o. Memᴰ u (children_of (add_to_parent u o m) k)) (sym e)
          (add_to_parent_adds u k m h)))
add_children_adds (t ∷ ts) u m k (Memᴰ.tail i) e h =
    add_children_adds ts u (add_to_parent t t.parent_id m) k i e h

any_of-mem :
    (p : Task → Bool) (u : Task) (ts : List Task) → Memᴰ u ts → p u ≡ true → any_of p ts ≡ true
any_of-mem p u [] i h = elim i [ ]
any_of-mem p u (t ∷ ts) (Memᴰ.head e) h = rw (ap p (sym e) ∙ h) refl
any_of-mem p u (t ∷ ts) (Memᴰ.tail i) h = ground (arith, any_of-mem p u ts i h)

blocked_by_subtasks-mem :
    (m : Dict (List Task)) (k : String) (children : List Task)
    → Memᴰ (k, children) m
    → any_of (λ c. not (same c.status done)) children ≡ true
    → includes k (blocked_by_subtasks m) ≡ true
unfolding blocked_by_subtasks
blocked_by_subtasks-mem [] k children i h = elim i [ ]
blocked_by_subtasks-mem ((j, ts) ∷ m) k children (Memᴰ.head e) h =
    let key : k ≡ j = ap (λ (x : String × List Task). x.0) e in
    let value : children ≡ ts = ap (λ (x : String × List Task). x.1) e in
    let some_open : any_of (λ c. not (same c.status done)) ts ≡ true =
      subst (λ cs. any_of (λ c. not (same c.status done)) cs ≡ true) value h in
    rw some_open (ground (arith, eq_iff j k))
blocked_by_subtasks-mem ((j, ts) ∷ m) k children (Memᴰ.tail i) h =
    ground (arith, blocked_by_subtasks-mem m k children i h)

same_done : (st : TaskStatus) → same st done ≡ true → st ≡ done
same_done st h = ground arith

-- A task that is not listed as blocked by its subtasks has only finished ones.
pub subtask_done :
    (all : List Task) (u : Task) (k : String)
    → includes k (blocked_by_subtasks (build_children_map all)) ≡ false
    → Memᴰ u all
    → u.parent_id ≡ some k
    → truthy (some k) ≡ true
    → u.status ≡ done
unfolding build_children_map
subtask_done all u k free i e h = elim (Bool-cases (same u.status done)) [
  | inl over ↦ same_done u.status over
  | inr open_still ↦
      let child = add_children_adds all u [] k i e h in
      elim (Option-cases (lookup k (add_children all []))) [
        | inl absent ↦
            elim (subst (λ o. Memᴰ u (elim o [ none ↦ [] | some ts ↦ ts ])) absent child) [ ]
        | inr (ts, found) ↦
            let listed : Memᴰ u ts =
              subst (λ o. Memᴰ u (elim o [ none ↦ [] | some ts ↦ ts ])) found child in
            let some_open : any_of (λ c. not (same c.status done)) ts ≡ true =
              any_of-mem (λ c. not (same c.status done)) u ts listed (rw open_still refl) in
            let blocks =
              blocked_by_subtasks-mem (add_children all []) k ts
                (mem_of_lookup k ts (add_children all []) found) some_open in
            let no : true ≡ false = sym blocks ∙ free in cc
      ]
]

occupy_keeps :
    (t : Task) (o : Option String) (m : Dict String) (r : String)
    → is_held r m ≡ true
    → is_held r (occupy t o m) ≡ true
occupy_keeps t none m r h = h
occupy_keeps t (some resource) m r h = ground (arith, lookup-insert resource r t.id m)

occupy_adds :
    (t : Task) (r : String) (m : Dict String)
    → truthy (some r) ≡ true
    → is_held r (occupy t (some r) m) ≡ true
occupy_adds t r m h = ground (arith, lookup-insert r r t.id m, eq_refl r)

occupy_each_keeps :
    (ts : List Task) (m : Dict String) (r : String)
    → is_held r m ≡ true
    → is_held r (occupy_each ts m) ≡ true
unfolding occupy_each
occupy_each_keeps [] m r h = h
occupy_each_keeps (t ∷ ts) m r h =
    occupy_each_keeps ts (occupy t t.resource m) r (occupy_keeps t t.resource m r h)

occupy_each_adds :
    (ts : List Task) (u : Task) (m : Dict String) (r : String)
    → Memᴰ u ts
    → u.resource ≡ some r
    → truthy (some r) ≡ true
    → is_held r (occupy_each ts m) ≡ true
unfolding occupy_each
occupy_each_adds [] u m r i e h = elim i [ ]
occupy_each_adds (t ∷ ts) u m r (Memᴰ.head is_t) e h =
    occupy_each_keeps ts (occupy t t.resource m) r (
      subst (λ v. is_held r (occupy v v.resource m) ≡ true) is_t
        (subst (λ o. is_held r (occupy u o m) ≡ true) (sym e) (occupy_adds u r m h)))
occupy_each_adds (t ∷ ts) u m r (Memᴰ.tail i) e h =
    occupy_each_adds ts u (occupy t t.resource m) r i e h

having_status-mem :
    (st : TaskStatus) (u : Task) (ts : List Task)
    → Memᴰ u ts
    → same u.status st ≡ true
    → Memᴰ u (having_status st ts)
having_status-mem st u [] i h = elim i [ ]
having_status-mem st u (t ∷ ts) (Memᴰ.head e) h =
    rw (ap (λ (v : Task). same v.status st) (sym e) ∙ h) (Memᴰ.head e)
having_status-mem st u (t ∷ ts) (Memᴰ.tail i) h = elim (Bool-cases (same t.status st)) [
  | inl kept ↦ rw kept (Memᴰ.tail (having_status-mem st u ts i h))
  | inr left ↦ rw left (having_status-mem st u ts i h)
]

-- The resource of a task in progress is taken.
pub resource_taken :
    (all : List Task) (u : Task) (r : String)
    → Memᴰ u all
    → same u.status in_progress ≡ true
    → u.resource ≡ some r
    → truthy (some r) ≡ true
    → is_held r (build_resource_occupancy_map all) ≡ true
unfolding build_resource_occupancy_map
resource_taken all u r i busy e h =
    occupy_each_adds (having_status in_progress all) u [] r
      (having_status-mem in_progress u all i busy) e h
