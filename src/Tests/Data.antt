-- ===== src/Tests/Data.antt =====
-- The inputs of the examples: a support agent's task with two actions, over a world that counts.
use delta_agents.Common.{ℕ, ◌+◌, String, true, false, none, some, [], ◌∷◌, ok, err}
use delta_agents.Cost.{Cost, zero_cost}
use delta_agents.Scores.Fixed.{fixed}
use delta_agents.Types.{ActionSpec, RiskState, TrustState, TaskTree, running, unrequested, Strategy}
use delta_agents.State.{Snapshot, Task}
use delta_agents.Store.{Store}
use delta_agents.Host.{Host, Hooks, Action}
use delta_agents.Execution.{Engine, GatewayInput}
use delta_agents.Workflow.{Branch, plain, branch, Phase, RunPhaseInput}
use delta_agents.Workflow.RunWorkflow.{RunWorkflowInput}

-- the world is the time, which goes on by a millisecond at each reading
abbrev pub host : Host
host = record {
  World = ℕ;
  Input = ℕ;
  Data = ℕ;
  Value = ℕ;
  Extras = Unit;
  now = λ w. (w, w + 1);
  fresh_id = λ prefix w. (prefix, w + 1);
  load_skill = λ folder w. (none, w);
  pause = λ attempt w. w + attempt;
}

abbrev pub tokens_and_time : ℕ → ℕ → Cost
tokens_and_time t d = record zero_cost { tokens = t; duration_ms = d }

abbrev pub calm : RiskState ℕ
calm = record {
  static_risk = 200;
  current_risk = 200;
  predicted_risk = 200;
  confidence = 500;
  escalated = false;
}

abbrev pub alarmed : RiskState ℕ
alarmed = record calm { current_risk = 900 }

abbrev pub trusted : TrustState ℕ
trusted = record {
  score = 800;
  successful_executions = 4;
  failed_executions = 1;
  surprise_events = 0;
}

abbrev pub snap : Snapshot ℕ
snap = record {
  task_id = "t1";
  root_id = "t1";
  agent_name = "support";
  status = running;
  completed_actions = "greet" ∷ [];
  completed_workflows = [];
  budget = tokens_and_time 1000 60000;
  spent = tokens_and_time 100 2000;
  risk = calm;
  trust = trusted;
  kalman = none;
  current_workflow = none;
  current_phase = none;
  parent_budget = none;
  parent_spent = none;
  consumed_messages = none;
  completed_phases = none;
  current_action_index = none;
  current_action_via_jump = none;
  guidance = none;
}

abbrev pub task : String → Task ℕ
task id = record {
  id = id;
  root_id = "t1";
  parent_id = none;
  status = running;
  goal = "refund";
  assigned_agent = "support";
  workflow = none;
  current_phase = none;
  budget = tokens_and_time 1000 60000;
  risk = calm;
  trust = trusted;
  updated_at = 0;
}

-- one child runs and one waits
abbrev pub tree : TaskTree
tree = record {
  root_task_id = "t1";
  active_children = "t2" ∷ [];
  queued_children = "t3" ∷ [];
  max_concurrency = 1;
}

abbrev pub store : Store ℕ
store = record {
  tasks = ("t1", task "t1") ∷ ("t2", task "t2") ∷ ("t3", task "t3") ∷ ("t4", task "t4") ∷ [];
  task_trees = ("t1", tree) ∷ [];
  executions = [];
  checkpoints_by_task = [];
  approvals = [];
  escalations_by_task = [];
  messages_by_task = [];
  memories_by_agent = [];
  commits_by_agent = [];
  queues = [];
}

abbrev pub engine : Engine fixed host
engine = record { store = store; world = 10 }

abbrev pub hooks : Hooks fixed host
hooks = record { before = none; after = none; on_error = none }

abbrev pub spec : String → ActionSpec ℕ
spec name = record {
  name = name;
  risk = some 2;
  estimated_cost = none;
  requires_approval = none;
  prerequisites = none;
}

abbrev pub lookup : Action fixed host
lookup = record {
  spec = spec "lookup";
  schema = λ x. ok x;
  hooks = hooks;
  fn = λ x ctx o. (ok x, record o { world = o.world + 5 });
  skills = none;
}

-- an action that fails
abbrev pub refund : Action fixed host
refund = record lookup {
  spec = spec "refund";
  fn = λ x ctx o. (err "no funds", record o { world = o.world + 5 });
}

abbrev pub gateway_input : Action fixed host → Snapshot ℕ → GatewayInput fixed host
gateway_input a s = record {
  action = a;
  raw_input = 7;
  state = s;
  approval_status = unrequested;
  reasoning_cost = some (tokens_and_time 50 0);
  step_index = 1;
  workflow_name = none;
  available_skills = none;
  extras = tt;
}

abbrev pub route : Branch host
route = record { action = "lookup"; on_success = some "refund"; on_failure = none; when = none }

abbrev pub phase : Phase fixed host
phase = record {
  name = "triage";
  actions = plain "lookup" ∷ branch route ∷ plain "lookup" ∷ plain "refund" ∷ [];
  supervision = some (record { strategy = Strategy.escalate; max_retries = 2 });
  hooks = hooks;
  skills = none;
}

abbrev pub phase_input : RunPhaseInput fixed host
phase_input = record {
  phase = phase;
  action_registry = ("lookup", lookup) ∷ ("refund", refund) ∷ [];
  state = snap;
  get_approval_status = λ name. unrequested;
  input_for = λ name. 7;
  extras = tt;
  workflow_name = some "support";
  start_index = none;
  start_via_jump = none;
  agent_skills = none;
  guidance_enabled = true;
}

abbrev pub workflow_input : RunWorkflowInput fixed host
workflow_input = record {
  workflow = record { name = "support"; phases = phase ∷ []; hooks = hooks };
  action_registry = ("lookup", lookup) ∷ ("refund", refund) ∷ [];
  state = snap;
  get_approval_status = λ name. unrequested;
  input_for = λ name. 7;
  extras = tt;
  agent_skills = none;
  guidance_enabled = true;
}
