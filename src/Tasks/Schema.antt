-- ===== src/Tasks/Schema.antt =====
-- src/schemas/task.ts: the frontmatter that the modelled operations read and write, and the table of
-- valid transitions. A timestamp is its number of milliseconds.
use aof.Prelude.{ℕ, String, Bool, true, false, Option, List, [], ◌∷◌, ◌||◌}

pub data TaskStatus : Type 0 where
  backlog ready in_progress blocked review done cancelled deadletter : TaskStatus

abbrev pub same : TaskStatus → TaskStatus → Bool
same backlog backlog = true
same ready ready = true
same in_progress in_progress = true
same blocked blocked = true
same review review = true
same done done = true
same cancelled cancelled = true
same deadletter deadletter = true
same _ _ = false

abbrev pub one_of : TaskStatus → List TaskStatus → Bool
one_of s [] = false
one_of s (t ∷ ts) = same t s || one_of s ts

unfoldable pub valid_transitions : TaskStatus → List TaskStatus
valid_transitions backlog = ready ∷ blocked ∷ cancelled ∷ []
valid_transitions ready = in_progress ∷ blocked ∷ deadletter ∷ cancelled ∷ []
valid_transitions in_progress = review ∷ ready ∷ blocked ∷ deadletter ∷ cancelled ∷ []
valid_transitions blocked = ready ∷ deadletter ∷ cancelled ∷ []
valid_transitions review = done ∷ in_progress ∷ blocked ∷ cancelled ∷ []
valid_transitions done = []
valid_transitions cancelled = []
valid_transitions deadletter = ready ∷ []

unfoldable pub is_valid_transition : TaskStatus → TaskStatus → Bool
unfolding valid_transitions
is_valid_transition from to = one_of to (valid_transitions from)

pub record TaskLease : Type 0 where
  pub agent : String
  pub acquired_at : ℕ
  pub expires_at : ℕ
  pub renew_count : ℕ

-- The keys of `metadata` that the modelled operations use.
pub record Metadata : Type 0 where
  pub block_reason : Option String
  pub cancellation_reason : Option String
  pub retry_count : Option ℕ
  pub review_required : Option Bool
  pub dispatch_failures : Option ℕ
  pub last_dispatch_failure_reason : Option String
  pub last_dispatch_failure_at : Option ℕ
  pub error_class : Option String
  pub deadletter_reason : Option String
  pub deadletter_last_error : Option String
  pub deadletter_error_class : Option String
  pub deadletter_at : Option ℕ
  pub deadletter_failure_count : Option ℕ
  pub last_blocked_at : Option ℕ
  pub delegation_depth : Option ℕ

pub data TaskPriority : Type 0 where
  critical high normal low : TaskPriority

pub record TaskRouting : Type 0 where
  pub role : Option String
  pub team : Option String
  pub agent : Option String
  pub tags : List String
  pub workflow : Option String

pub record Task : Type 0 where
  pub id : String
  pub title : String
  pub body : String
  pub priority : TaskPriority
  pub routing : TaskRouting
  pub parent_id : Option String
  pub content_hash : Option String
  pub resource : Option String
  pub callback_depth : Option ℕ
  pub status : TaskStatus
  pub lease : Option TaskLease
  pub depends_on : List String
  pub updated_at : ℕ
  pub last_transition_at : ℕ
  pub metadata : Metadata
