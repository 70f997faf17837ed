-- ===== src/Scheduler/Runner.antt =====
-- packages/delta/src/engine/scheduler.ts: the runner of a task, the outcome of a step, and the result of a
-- task; and the task that a delegation makes. The delegation is that of ports/reasoner-port.ts.
use delta_agents.Common.{ℕ, String, Bool, false, Option, none, some, List, [], or_else}
use delta_agents.Cost.{Cost, remaining_cost}
use delta_agents.Scores.{Scores}
use delta_agents.Types.{ExecutionStatus}
use delta_agents.Governance.{initial_trust, initial_risk_state}
use delta_agents.State.{Snapshot, Task}
use delta_agents.Supervision.{enforce_subtask_scope}

pub record DelegationRequest : Type 0 where
  pub goal : String
  pub agent_name : String
  pub budget : Option Cost

pub data StepOutcome (S : Type 0) : Type 0 where
  stepped natural_done : Snapshot S → StepOutcome S
  delegate : Snapshot S → DelegationRequest → StepOutcome S
  blocked failed : Snapshot S → String → StepOutcome S

abbrev pub outcome_snapshot : {S : Type 0} → StepOutcome S → Snapshot S
outcome_snapshot (StepOutcome.stepped s) = s
outcome_snapshot (StepOutcome.natural_done s) = s
outcome_snapshot (StepOutcome.delegate s d) = s
outcome_snapshot (StepOutcome.blocked s reason) = s
outcome_snapshot (StepOutcome.failed s reason) = s

pub data SendStatus : Type 0 where
  completed failed blocked queued pending_commit : SendStatus

-- the reasons that the scheduler gives; those of a step are `said`
pub data StopReason : Type 0 where
  said agent_not_found : String → StopReason
  step_limit : ℕ → StopReason
  budget_exhausted parent_exhausted tree_aborted no_result no_reason : StopReason
  child_failed child_blocked : String → StopReason → StopReason

pub record SendResult (S : Type 0) : Type 0 where
  pub task_id : String
  pub status : SendStatus
  pub snapshot : Snapshot S
  pub reason : Option StopReason

pub record Runner (S A : Type 0) : Type 0 where
  pub task : Task S
  pub agent : A
  pub snapshot : Snapshot S
  pub step : ℕ
  pub max_steps : ℕ
  pub settled : Bool
  pub result : Option (SendResult S)
  pub consumed : List String
  pub previous_phase : Option String

unfoldable pub make_runner : {S A : Type 0} → Task S → A → Snapshot S → ℕ → Runner S A
make_runner task agent snapshot max_steps = record {
  task = task;
  agent = agent;
  snapshot = snapshot;
  step = 0;
  max_steps = max_steps;
  settled = false;
  result = none;
  consumed = or_else snapshot.consumed_messages [];
  previous_phase = snapshot.current_phase;
}

abbrev pub task_status_for : SendStatus → ExecutionStatus
task_status_for SendStatus.completed = ExecutionStatus.completed
task_status_for SendStatus.blocked = ExecutionStatus.paused
task_status_for _ = ExecutionStatus.failed

module _ (F : Scores) where
  open F use {S}

  -- the budget that a delegation is granted
  unfoldable pub granted_budget : Snapshot S → DelegationRequest → Cost
  granted_budget parent d =
      let requested = or_else d.budget (remaining_cost parent.budget parent.spent) in
      enforce_subtask_scope requested parent.budget parent.spent

  unfoldable pub child_task : String → String → String → Cost → ℕ → DelegationRequest → Task S
  child_task id root_id parent_id budget now d = record {
    id = id;
    root_id = root_id;
    parent_id = some parent_id;
    status = ExecutionStatus.pending;
    goal = d.goal;
    assigned_agent = d.agent_name;
    workflow = none;
    current_phase = none;
    budget = budget;
    risk = initial_risk_state F none;
    trust = initial_trust F;
    updated_at = now;
  }
