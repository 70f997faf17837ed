-- ===== src/Types.antt =====
-- The shared data of the engine: packages/delta/src/shared/types.ts, with the declared part of an
-- action of authoring/types.ts and the Kalman state of governance/types.ts. `S` is the type of the
-- scores in [0, 1] (risk, trust, health), floating-point numbers in the program.
use delta_agents.Common.{ℕ, String, Bool, Option, List}
use delta_agents.Cost.{Cost}

pub data ExecutionStatus : Type 0 where
  pending running completed failed aborted paused pending_commit : ExecutionStatus

pub record RiskState (S : Type 0) : Type 0 where
  pub static_risk : S
  pub current_risk : S
  pub predicted_risk : S
  pub confidence : S
  pub escalated : Bool

pub record TrustState (S : Type 0) : Type 0 where
  pub score : S
  pub successful_executions : ℕ
  pub failed_executions : ℕ
  pub surprise_events : ℕ

pub record KalmanState (S : Type 0) : Type 0 where
  pub estimate : S
  pub error_variance : S

pub record TaskTree : Type 0 where
  pub root_task_id : String
  pub active_children : List String
  pub queued_children : List String
  pub max_concurrency : ℕ

pub data Strategy : Type 0 where
  retry restart resume escalate abort_subtree abort_tree : Strategy

pub record SupervisionPolicy : Type 0 where
  pub strategy : Strategy
  pub max_retries : ℕ

pub data EscalationTrigger : Type 0 where
  risk_threshold bayesian_surprise trust_degradation policy_violation budget_violation :
      EscalationTrigger
  workflow_failure reasoner_failure explicit : EscalationTrigger

pub record Prerequisites : Type 0 where
  pub actions : Option (List String)
  pub workflows : Option (List String)

-- `requiresApproval?: boolean | { untilTrust: number }`
pub data ApprovalPolicy (S : Type 0) : Type 0 where
  flag : Bool → ApprovalPolicy S
  until_trust : S → ApprovalPolicy S

-- What an action declares beside its functions; the risk is 1 to 5.
pub record ActionSpec (S : Type 0) : Type 0 where
  pub name : String
  pub risk : Option ℕ
  pub estimated_cost : Option Cost
  pub requires_approval : Option (ApprovalPolicy S)
  pub prerequisites : Option Prerequisites

pub data ApprovalStatus : Type 0 where
  unrequested pending approved rejected : ApprovalStatus

-- The payload of a message is JSON in the program; here it is its text, `String(m.payload)`.
pub record Message : Type 0 where
  pub id : String
  pub task_id : String
  pub sender : String
  pub receiver : String
  pub payload : String
  pub created_at : ℕ
  pub consumed : Bool
  pub delivered_at : Option ℕ
  pub read_at : Option ℕ
  pub recalled_at : Option ℕ

pub record Memory : Type 0 where
  pub id : String
  pub task_id : String
  pub agent_name : String
  pub kind : String
  pub content : String
  pub created_at : ℕ

pub record Commit : Type 0 where
  pub id : String
  pub task_id : String
  pub agent_name : String
  pub workflow_name : Option String
  pub notes : Option String
  pub checkpoint_id : Option String
  pub created_at : ℕ

pub record CommitQuery : Type 0 where
  pub query : Option String
  pub workflow_name : Option String
  pub all_agents : Bool
  pub limit : Option ℕ

pub record Queue : Type 0 where
  pub id : String
  pub task_id : String
  pub pending : List String
  pub active : List String
  pub completed : List String
