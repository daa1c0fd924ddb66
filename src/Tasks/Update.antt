-- ===== src/Tasks/Update.antt =====
-- src/store/task-mutations.ts, `updateTask`. `hash` is the digest of a text, an argument.
use aof.Prelude.{ℕ, String, Option, none, some, List, [], ◌∷◌}
use aof.Tasks.Schema.{done, one_of, Task, TaskPriority, TaskRouting}
use aof.Tasks.Store.{Action, ◌>>=◌, ◌>>◌, pure, refuse_if, get_task, write_task, in_terminal_state}

pub record RoutingPatch : Type 0 where
  pub role : Option String
  pub team : Option String
  pub agent : Option String
  pub tags : Option (List String)

pub record UpdatePatch : Type 0 where
  pub title : Option String
  pub description : Option String
  pub priority : Option TaskPriority
  pub routing : Option RoutingPatch

-- `if (field !== undefined) target = field`
abbrev pub or_else {ℓ} : {A : Type ℓ} → Option A → A → A
or_else none old = old
or_else (some new) old = new

abbrev pub or_option {ℓ} : {A : Type ℓ} → Option A → Option A → Option A
or_option none old = old
or_option (some new) old = some new

abbrev pub patch_routing : Option RoutingPatch → TaskRouting → TaskRouting
patch_routing none r = r
patch_routing (some p) r = record r {
  role = or_option p.role r.role;
  team = or_option p.team r.team;
  agent = or_option p.agent r.agent;
  tags = or_else p.tags r.tags;
}

abbrev pub hash_of : (String → String) → Option String → Option String → Option String
hash_of hash none old = old
hash_of hash (some text) old = some (hash text)

unfoldable pub patched : (String → String) → ℕ → UpdatePatch → Task → Task
patched hash now p t = record t {
  title = or_else p.title t.title;
  body = or_else p.description t.body;
  content_hash = hash_of hash p.description t.content_hash;
  priority = or_else p.priority t.priority;
  routing = patch_routing p.routing t.routing;
  updated_at = now;
}

unfoldable pub update_task : (String → String) → ℕ → String → UpdatePatch → Action Task
unfolding get_task write_task patched
update_task hash now id p = do
  t ← get_task id
  refuse_if (one_of t.status (done ∷ [])) (in_terminal_state t.status)
  write_task (patched hash now p t)
  pure (patched hash now p t)
