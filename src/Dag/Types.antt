-- ===== src/Dag/Types.antt =====
-- src/dispatch/dag-evaluator.ts: the events, the change log, and the results of an evaluation.
use aof.Prelude.{String, Option, List, Dict, ◌≡◌, refl, ◌⊎◌, inl, inr}
use aof.Json.{Fields}
use aof.Workflow.Schema.{HopStatus, HopState, WorkflowState, WorkflowStatus}

-- A `TypeError` of the language, where the code reads a member of `undefined`; `out_of_fuel` is the
-- model's own, for a recursion that was given too few rounds.
pub data Result (A : Type 0) : Type 0 where
  ok : A → Result A
  type_error : Result A
  out_of_fuel : Result A

infixl 5 ◌>>=◌
abbrev pub ◌>>=◌ : {A B : Type 0} → Result A → (A → Result B) → Result B
ok a >>= f = f a
type_error >>= f = type_error
out_of_fuel >>= f = out_of_fuel

-- A chain that returns returned at its first link.
pub >>=-eq-ok :
    {A B : Type 0} {result : B} (first : Result A) (rest : A → Result B)
    → (first >>= rest) ≡ ok result
    → (x : A) × (first ≡ ok x) × (rest x ≡ ok result)
>>=-eq-ok type_error rest e = cc
>>=-eq-ok out_of_fuel rest e = cc
>>=-eq-ok (ok x) rest e = (x, refl, e)

pub Result-cases :
    {A : Type 0} (m : Result A) → (m ≡ type_error) ⊎ (m ≡ out_of_fuel) ⊎ ((a : A) × (m ≡ ok a))
Result-cases (ok a) = inr (inr (a, refl))
Result-cases type_error = inl refl
Result-cases out_of_fuel = inr (inl refl)

pub ok_eq : {A : Type 0} {a b : A} → ok a ≡ ok b → a ≡ b
ok_eq h = cc

pub data Outcome : Type 0 where
  complete failed skipped rejected : Outcome

pub record HopEvent : Type 0 where
  pub hop_id : String
  pub outcome : Outcome
  pub result : Option Fields

-- `from` is `none` where the code reads the status of a hop that the state does not hold.
pub record HopTransition : Type 0 where
  pub hop_id : String
  pub from : Option HopStatus
  pub to : HopStatus
  pub reason : Option String

-- The state that the helpers mutate, with the accumulated changes.
pub record Work : Type 0 where
  pub hops : Dict HopState
  pub changes : List HopTransition

pub data TaskOutcome : Type 0 where
  task_done task_failed : TaskOutcome

pub record DagEvaluationResult : Type 0 where
  pub state : WorkflowState
  pub changes : List HopTransition
  pub ready_hops : List String
  pub dag_status : Option WorkflowStatus
  pub task_status : Option TaskOutcome
