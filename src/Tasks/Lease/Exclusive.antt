-- ===== src/Tasks/Lease/Exclusive.antt =====
-- A lease that has not expired keeps other agents out.
use aof.Prelude.{
  ℕ, ◌<◌, String, Bool, true, false, not, ◌&&◌, ◌||◌, Option, none, some, lookup, insert,
  lookup-insert_self, ◌≡◌, ◌≢◌, refl, sym, ◌∙◌, ap, Bool-cases, Option-cases, arith, ◌==◌, inl, inr,
  eq_iff, ltb,
}
use aof.Tasks.Schema.{
  ready, in_progress, same, Task, TaskLease, is_valid_transition, valid_transitions,
}
use aof.Tasks.Store.{
  Store, return, throw, StoreError, cannot_lease, leased_to, get_task, write_task, transitioned,
  transition_task, no_patch, transition_returns,
}
use aof.Tasks.Lease.{acquire_lease, new_lease, with_lease, start_task, is_lease_active}

abbrev pub held_by : String → Option TaskLease → Bool
held_by agent none = false
held_by agent (some l) = l.agent == agent

module _ (now ttl : ℕ) (id agent : String) (s : Store) (t : Task)
    (found : lookup id s ≡ some t) where
  pub refused_status :
      (same t.status ready || same t.status in_progress) ≡ false
      → acquire_lease now ttl id agent s ≡ (throw (cannot_lease t.status), s)
  unfolding acquire_lease get_task
  refused_status h =
      let a : same t.status ready ≡ false = ground arith in
      let b : same t.status in_progress ≡ false = ground arith in
      simp (acquire_lease, get_task, found, a, b)

  -- An agent does not get the lease of a stored task while another agent holds one that has not
  -- expired: the call throws, and the store stays as it is.
  pub acquire_lease_excludes :
      (l : TaskLease)
      → t.lease ≡ some l
      → now < l.expires_at
      → l.agent ≢ agent
      → (e : StoreError) × (acquire_lease now ttl id agent s ≡ (throw e, s))
  unfolding acquire_lease get_task
  acquire_lease_excludes l held early other =
      let taken : (ltb now l.expires_at && not (l.agent == agent)) ≡ true =
        ground (arith, eq_iff l.agent agent) in
      elim (Bool-cases (same t.status ready || same t.status in_progress)) [
        | inl goes ↦ (leased_to l.agent, ground arith)
        | inr refused ↦ (cannot_lease t.status, refused_status refused)
      ]

  -- A ready or in-progress task that is stored under its own identifier, and on which no other agent
  -- holds an unexpired lease, goes to the agent: it ends in progress, with a lease that starts now
  -- and lasts `ttl`, and the store holds what the call returns.
  pub acquire_lease_succeeds :
      t.id ≡ id
      → (same t.status ready || same t.status in_progress) ≡ true
      → (is_lease_active now t.lease && not (held_by agent t.lease)) ≡ false
      → (u : Task) × (s' : Store) × (acquire_lease now ttl id agent s ≡ (return u, s'))
        × (lookup id s' ≡ some u)
        × (u.status ≡ in_progress)
        × (u.lease ≡ some (new_lease now ttl agent))
  unfolding acquire_lease get_task write_task is_lease_active with_lease transitioned
      is_valid_transition valid_transitions
  acquire_lease_succeeds keyed goes free =
      let u = with_lease now (some (new_lease now ttl agent)) t in
      let s1 = insert t.id u s in
      let wrote : acquire_lease now ttl id agent s ≡ start_task now id u s1 =
        elim (Option-cases t.lease) [
          | inl none_held ↦ ground arith
          | inr (l, held) ↦ ground arith
        ] in
      let found1 : lookup id s1 ≡ some u =
        ap (λ k. lookup k s1) (sym keyed) ∙ lookup-insert_self t.id u s in
      elim (Bool-cases (same t.status ready)) [
        | inr busy ↦
            let ends : start_task now id u s1 ≡ (return u, s1) = rw (start_task, busy) in
            (u, s1, wrote ∙ ends, found1, ground arith, refl)
        | inl waiting ↦
            let v = transitioned now in_progress no_patch u in
            let status : t.status ≡ ready = ground arith in
            let started : start_task now id u s1 ≡ transition_task now id in_progress no_patch s1 =
              rw (start_task, waiting) in
            let moved : transition_task now id in_progress no_patch s1
                ≡ (return v, insert t.id v s1) =
              transition_returns now id in_progress no_patch s1 u found1 (rw status) (rw status) in
            (
              v,
              insert t.id v s1,
              wrote ∙ started ∙ moved,
              ap (λ k. lookup id (insert k v s1)) keyed ∙ lookup-insert_self id v s1,
              refl,
              refl,
            )
      ]
