-- ===== src/State.antt =====
-- packages/delta/src/state-space: the task snapshot, its transitions, legality and discovery.
-- The reasons of a refusal are constructors that hold what the program's texts interpolate.
-- Left out of the snapshot are fields that no modelled function reads or writes: the inputs of a
-- workflow task, tool history and results, attachments and the last invalid decision.
pub mod Legality
pub mod Transitions
use delta_agents.Common.{
  ℕ, String, Bool, true, false, Option, none, some, List, [], ◌∷◌, ◌++◌, includes, or_else,
  if◌then◌else◌,
}
use delta_agents.Cost.{Cost, zero_cost, add_costs, is_over_budget}
use delta_agents.Types.{
  ExecutionStatus, running, RiskState, TrustState, KalmanState, ActionSpec, Prerequisites,
}

-- The lines of advice of oversight/guidance.ts, with the numbers that their texts format.
pub data Guidance (S : Type 0) : Type 0 where
  risk_elevated trust_slipping : S → Guidance S
  budget_consumed : String → S → Guidance S
  outcome_deviated : Guidance S

pub record Snapshot (S : Type 0) : Type 0 where
  pub task_id : String
  pub root_id : String
  pub agent_name : String
  pub status : ExecutionStatus
  pub completed_actions : List String
  pub completed_workflows : List String
  pub budget : Cost
  pub spent : Cost
  pub risk : RiskState S
  pub trust : TrustState S
  pub kalman : Option (KalmanState S)
  pub current_workflow : Option String
  pub current_phase : Option String
  pub parent_budget : Option Cost
  pub parent_spent : Option Cost
  pub consumed_messages : Option (List String)
  pub completed_phases : Option (List String)
  pub current_action_index : Option ℕ
  pub current_action_via_jump : Option Bool
  pub guidance : Option (List (Guidance S))

pub record Task (S : Type 0) : Type 0 where
  pub id : String
  pub root_id : String
  pub parent_id : Option String
  pub status : ExecutionStatus
  pub goal : String
  pub assigned_agent : String
  pub workflow : Option String
  pub current_phase : Option String
  pub budget : Cost
  pub risk : RiskState S
  pub trust : TrustState S
  pub updated_at : ℕ

-- `xs.includes(x) ? xs : [...xs, x]`
unfoldable pub add_once : List String → String → List String
add_once xs x = if includes xs x then xs else xs ++ x ∷ []

pub data LegalityReason : Type 0 where
  not_running : String → ExecutionStatus → LegalityReason
  budget_exhausted parent_budget_exhausted awaiting_oversight : String → LegalityReason
  missing_action missing_workflow : String → String → LegalityReason

pub data LegalityResult : Type 0 where
  legal : LegalityResult
  illegal : LegalityReason → LegalityResult

-- the first name of the list that is not among the completed ones
pub first_missing : List String → List String → Option String
first_missing [] completed = none
first_missing (x ∷ xs) completed =
    if includes completed x then first_missing xs completed else some x

abbrev pub is_running : ExecutionStatus → Bool
is_running running = true
is_running _ = false

unfoldable pub parent_over : Option Cost → Option Cost → Bool
parent_over (some budget) (some spent) = is_over_budget spent budget
parent_over _ _ = false

pub record DiscoveryResult (S : Type 0) : Type 0 where
  pub available : List (ActionSpec S)
  pub blocked : List (ActionSpec S × LegalityReason)

module _ {S : Type 0} where
  pub snapshot_from_task : Task S → Snapshot S
  snapshot_from_task t = record {
    task_id = t.id;
    root_id = t.root_id;
    agent_name = t.assigned_agent;
    status = t.status;
    completed_actions = [];
    completed_workflows = [];
    budget = t.budget;
    spent = zero_cost;
    risk = t.risk;
    trust = t.trust;
    kalman = none;
    current_workflow = t.workflow;
    current_phase = t.current_phase;
    parent_budget = none;
    parent_spent = none;
    consumed_messages = none;
    completed_phases = none;
    current_action_index = none;
    current_action_via_jump = none;
    guidance = none;
  }

  unfoldable pub with_completed_action : Snapshot S → String → Cost → Snapshot S
  with_completed_action s name cost = record s {
    completed_actions = add_once s.completed_actions name;
    spent = add_costs s.spent cost;
  }

  unfoldable pub with_completed_workflow : Snapshot S → String → Snapshot S
  with_completed_workflow s name = record s {
    completed_workflows = add_once s.completed_workflows name;
  }

  unfoldable pub with_status : Snapshot S → ExecutionStatus → Snapshot S
  with_status s status = record s { status = status }

  unfoldable pub with_spent : Snapshot S → Cost → Snapshot S
  with_spent s spent = record s { spent = add_costs s.spent spent }

  unfoldable pub with_escalation : Snapshot S → Bool → Snapshot S
  with_escalation s escalated = record s { risk = record s.risk { escalated = escalated } }

  pub workflow_prerequisites : Prerequisites → Snapshot S → LegalityResult
  workflow_prerequisites p s = elim (first_missing (or_else p.workflows []) s.completed_workflows) [
    | none ↦ legal
    | some name ↦ illegal (missing_workflow name s.task_id)
  ]

  pub declared_prerequisites : Option Prerequisites → Snapshot S → LegalityResult
  declared_prerequisites none s = legal
  declared_prerequisites (some p) s =
      elim (first_missing (or_else p.actions []) s.completed_actions) [
        | none ↦ workflow_prerequisites p s
        | some name ↦ illegal (missing_action name s.task_id)
      ]

  unfoldable pub evaluate_prerequisites : ActionSpec S → Snapshot S → LegalityResult
  unfolding declared_prerequisites workflow_prerequisites
  evaluate_prerequisites action s = declared_prerequisites action.prerequisites s

  unfoldable pub check_legality : ActionSpec S → Snapshot S → LegalityResult
  unfolding parent_over
  check_legality action s =
      if is_running s.status
      then (if is_over_budget s.spent s.budget
          then illegal (budget_exhausted s.task_id)
          else if parent_over s.parent_budget s.parent_spent
          then illegal (parent_budget_exhausted s.task_id)
          else if s.risk.escalated
          then illegal (awaiting_oversight s.task_id)
          else evaluate_prerequisites action s)
      else illegal (not_running s.task_id s.status)

  abbrev sort_by : LegalityResult → ActionSpec S → DiscoveryResult S → DiscoveryResult S
  sort_by legal a r = record r { available = a ∷ r.available }
  sort_by (illegal reason) a r = record r { blocked = (a, reason) ∷ r.blocked }

  pub discover_actions : List (ActionSpec S) → Snapshot S → DiscoveryResult S
  discover_actions [] s = record { available = []; blocked = [] }
  discover_actions (a ∷ rest) s = sort_by (check_legality a s) a (discover_actions rest s)
