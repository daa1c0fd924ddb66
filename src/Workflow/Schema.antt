-- ===== src/Workflow/Schema.antt =====
-- src/schemas/workflow-dag.ts: the data of a workflow, its definition and its execution state.
-- A timestamp is its number of milliseconds; an optional field is an `Option`.
use aof.Prelude.{ℕ, String, Bool, Option, List, Dict}
use aof.Prelude.Int.{ℤ}
use aof.Json.{Value, Items, Fields}

-- `in` and `eq` hold any value; the `value` of `eq` and `neq` may be missing.
mutual
  pub data ConditionExpr : Type 0 where
    eq neq : (field : String) (value : Option Value) → ConditionExpr
    gt gte lt lte : (field : String) (value : ℤ) → ConditionExpr
    one_of : (field : String) (value : Items) → ConditionExpr
    has_tag : (value : String) → ConditionExpr
    hop_status : (hop status : String) → ConditionExpr
    and_all or_any : (conditions : Conditions) → ConditionExpr
    negate : (condition : ConditionExpr) → ConditionExpr
    always never : ConditionExpr

  pub data Conditions : Type 0 where
    nil : Conditions
    cons : ConditionExpr → Conditions → Conditions

pub data JoinType : Type 0 where
  all any : JoinType

pub data RejectionStrategy : Type 0 where
  origin predecessors : RejectionStrategy

pub record Hop : Type 0 where
  pub id : String
  pub role : String
  pub depends_on : List String
  pub join_type : JoinType
  pub auto_advance : Bool
  pub condition : Option ConditionExpr
  pub description : Option String
  pub can_reject : Bool
  pub rejection_strategy : Option RejectionStrategy
  pub timeout : Option String
  pub escalate_to : Option String

pub record WorkflowDefinition : Type 0 where
  pub name : String
  pub hops : List Hop

pub data HopStatus : Type 0 where
  pending ready dispatched complete failed skipped : HopStatus

pub record HopState : Type 0 where
  pub status : HopStatus
  pub started_at : Option ℕ
  pub completed_at : Option ℕ
  pub agent : Option String
  pub correlation_id : Option String
  pub result : Option Fields
  pub rejection_count : Option ℕ
  pub escalated : Option Bool

pub data WorkflowStatus : Type 0 where
  pending running complete failed : WorkflowStatus

pub record WorkflowState : Type 0 where
  pub status : WorkflowStatus
  pub hops : Dict HopState
  pub started_at : Option ℕ
  pub completed_at : Option ℕ
