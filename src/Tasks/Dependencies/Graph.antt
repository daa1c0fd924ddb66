-- ===== src/Tasks/Dependencies/Graph.antt =====
-- The dependency graph of a store, and its walks.
use aof.Prelude.{String, true, ◌≡◌, includes}
use aof.Tasks.Store.{Store}
use aof.Tasks.Dependencies.{deps_of}

-- `a` depends on `b`.
abbrev pub Needs : Store → String → String → Type 0
Needs s a b = includes b (deps_of s a) ≡ true

pub data Reach (s : Store) (a : String) : String → Type 0 where
  here : Reach s a a
  next : {b c : String} → Reach s a b → Needs s b c → Reach s a c

pub Reach-trans : {s : Store} {a b c : String} → Reach s a b → Reach s b c → Reach s a c
Reach-trans p here = p
Reach-trans p (next q e) = next (Reach-trans p q) e

-- No task depends on itself, by any chain.
abbrev pub IsAcyclic : Store → Type 0
IsAcyclic s = (a b : String) → Needs s a b → ¬ Reach s b a
