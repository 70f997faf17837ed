-- ===== src/Execution.antt =====
-- packages/delta/src/execution: the hook runner and the execution gateway, which every action passes.
-- The events for diagnostics are left out, and the engine's clock is taken not to run backwards.
pub mod Gateway
mod Examples
use delta_agents.Common.{
  ℕ, zero, suc, ◌+◌, ◌-◌, String, Bool, true, false, Option, none, some, List, length, includes,
  or_else, is_some, Result, ok, err, if◌then◌else◌,
}
use delta_agents.Cost.{Cost, zero_cost}
use delta_agents.Scores.{Scores}
use delta_agents.Types.{
  ActionSpec, ApprovalPolicy, ApprovalStatus, approved, ExecutionStatus, running, completed, failed,
}
use delta_agents.Governance.{
  TrustUpdateOutcome, success, failure, surprise, update_trust, update_risk, StepSignals,
  assemble_step_signals,
}
use delta_agents.State.{
  Snapshot, LegalityResult, legal, illegal, check_legality, with_completed_action, with_spent,
}
use delta_agents.Store
use delta_agents.Store.{Store, desk_of, with_desk, save_execution, update_execution}
use delta_agents.Host.{
  Host, Reason, schema_invalid, not_legal, hook_failed, before_hook_failed, ActionContext, Outside,
  AvailableSkill, Payload, value, error, user, Hooks, Action,
}
use delta_agents.Oversight

module _ (F : Scores) (H : Host) where
  open F use {S}
  open H use {World, Input, Data, Value, Extras, now, fresh_id}

  -- what the engine and the outside hold
  pub record Engine : Type 0 where
    pub store : Store S
    pub world : World

  -- run-hooks.ts
  abbrev outside : Engine → Outside H
  outside e = record { desk = desk_of e.store; world = e.world }

  abbrev returned : Outside H → Engine → Engine
  returned o e = record { store = with_desk o.desk e.store; world = o.world }

  hook_outcome : Result String Value × Outside H → Result Reason (Unit {0}) × Outside H
  hook_outcome (ok v, o) = (ok tt, o)
  hook_outcome (err e, o) = (err (hook_failed e), o)

  call_hook :
      Option (ActionContext H → Outside H → Result String Value × Outside H)
      → ActionContext H
      → Outside H
      → Result Reason (Unit {0}) × Outside H
  unfolding hook_outcome
  call_hook none ctx o = (ok tt, o)
  call_hook (some hook) ctx o = hook_outcome (hook ctx o)

  unfoldable pub run_hook :
      Option (ActionContext H → Outside H → Result String Value × Outside H)
      → ActionContext H
      → Engine
      → Result Reason (Unit {0}) × Engine
  unfolding call_hook
  run_hook hook ctx e = let (result, o) = call_hook hook ctx (outside e) in (result, returned o e)

  -- an `after` or `onError` hook, whose result the callers drop
  call_late_hook :
      Option (ActionContext H → Payload F H → Outside H → Result String Value × Outside H)
      → ActionContext H
      → Payload F H
      → Outside H
      → Outside H
  call_late_hook none ctx payload o = o
  call_late_hook (some hook) ctx payload o = (hook ctx payload o).1

  unfoldable pub run_late_hook :
      Option (ActionContext H → Payload F H → Outside H → Result String Value × Outside H)
      → ActionContext H
      → Payload F H
      → Engine
      → Engine
  unfolding call_late_hook
  run_late_hook hook ctx payload e = returned (call_late_hook hook ctx payload (outside e)) e

  unfoldable pub run_fn :
      (Data → ActionContext H → Outside H → Result String Value × Outside H)
      → Data
      → ActionContext H
      → Engine
      → Result String Value × Engine
  run_fn fn d ctx e = let (result, o) = fn d ctx (outside e) in (result, returned o e)

  -- types.ts
  pub record GatewayInput : Type 0 where
    pub action : Action F H
    pub raw_input : Input
    pub state : Snapshot S
    pub approval_status : ApprovalStatus
    pub reasoning_cost : Option Cost
    pub step_index : ℕ
    pub workflow_name : Option String
    pub available_skills : Option (List AvailableSkill)
    pub extras : Extras

  pub record GatewaySuccess : Type 0 where
    pub fn_result : Result String Value
    pub execution : Store.Execution
    pub updated_snapshot : Snapshot S
    pub surprise_magnitude : S

  is_approved : ApprovalStatus → Bool
  is_approved approved = true
  is_approved _ = false

  -- steps 1 to 3: schema, legality, approval
  legality_gate : LegalityResult → GatewayInput → Data → Result Reason Data
  legality_gate (illegal reason) i d = err (not_legal reason)
  legality_gate legal i d =
      if Oversight.approval_required i.action.spec.requires_approval
      then (if is_approved i.approval_status
          then ok d
          else err (Reason.approval_required i.action.spec.name i.approval_status))
      else ok d

  schema_gate : Result String Data → GatewayInput → Result Reason Data
  schema_gate (err message) i = err (schema_invalid message)
  schema_gate (ok d) i = legality_gate (check_legality i.action.spec i.state) i d

  pub gates : GatewayInput → Result Reason Data
  unfolding schema_gate legality_gate is_approved
  gates i = schema_gate (i.action.schema i.raw_input) i

  -- step 4
  pub context : GatewayInput → String → ActionContext H
  context i execution_id = record {
    task_id = i.state.task_id;
    execution_id = execution_id;
    agent_name = i.state.agent_name;
    phase = i.state.current_phase;
    workflow_name = i.workflow_name;
    available_skills = i.available_skills;
    extras = i.extras;
  }

  pub succeeded : Result String Value → Bool
  succeeded (ok v) = true
  succeeded (err e) = false

  -- step 8
  call_teardown : Result String Value → GatewayInput → ActionContext H → Outside H → Outside H
  unfolding call_late_hook
  call_teardown (ok v) i ctx o = call_late_hook i.action.hooks.after ctx (value v) o
  call_teardown (err e) i ctx o = call_late_hook i.action.hooks.on_error ctx (error (user e)) o

  teardown : Result String Value → GatewayInput → ActionContext H → Engine → Engine
  unfolding call_teardown
  teardown result i ctx e = returned (call_teardown result i ctx (outside e)) e

  pub final_status : Bool → ExecutionStatus
  final_status true = completed
  final_status false = failed

  -- tokens from the reasoner, time from the clock
  actual_cost : Option Cost → ℕ → Cost
  actual_cost reasoning duration_ms =
      let reported = or_else reasoning zero_cost in
      record {
        tokens = reported.tokens;
        duration_ms = duration_ms;
        memory = reported.memory;
        latency = reported.latency;
        money = none;
        content = none;
      }

  -- step 10
  signals : GatewayInput → Cost → Bool → StepSignals F
  signals i cost fn_succeeded =
      let done = i.state.completed_actions in
      let fresh =
        if fn_succeeded
        then (if includes done i.action.spec.name then false else true)
        else false in
      assemble_step_signals F (record {
        prior_kalman = i.state.kalman;
        anticipated_risk = i.action.spec.risk;
        has_estimated_cost = is_some i.action.spec.estimated_cost;
        prior_spent = i.state.spent;
        actual_cost = cost;
        budget = i.state.budget;
        completed_actions_count = if fresh then length done + 1 else length done;
        step_index = i.step_index;
        fn_succeeded = fn_succeeded;
      })

  trust_outcome : Bool → Bool → TrustUpdateOutcome
  trust_outcome significant fn_succeeded =
      if significant then surprise else if fn_succeeded then success else failure

  -- steps 11 to 13
  pub update_snapshot : GatewayInput → Cost → Bool → StepSignals F → Snapshot S
  unfolding trust_outcome
  update_snapshot i cost fn_succeeded g =
      let judged : Snapshot S = record i.state {
        trust =
            update_trust F i.state.trust (trust_outcome g.surprise.is_significant fn_succeeded)
              g.surprise.magnitude;
        risk = update_risk F i.state.risk g.evidence;
        kalman = some g.kalman;
      } in
      if fn_succeeded
      then with_completed_action judged i.action.spec.name cost
      else with_spent judged cost

  -- steps 6 to 13
  pub perform : GatewayInput → Data → String → Engine → GatewaySuccess × Engine
  unfolding actual_cost signals teardown succeeded run_fn
  perform i d execution_id e =
      let ctx = context i execution_id in
      let (started_at, w1) = now e.world in
      let initial : Store.Execution = record {
        id = execution_id;
        task_id = i.state.task_id;
        action = i.action.spec.name;
        started_at = started_at;
        ended_at = none;
        status = running;
        cost = zero_cost;
      } in
      let store1 = (save_execution initial e.store).1 in
      let (fn_result, e2) = run_fn i.action.fn d ctx (record { store = store1; world = w1 }) in
      let (ended_at, w3) = now e2.world in
      let cost = actual_cost i.reasoning_cost (ended_at - started_at) in
      let good = succeeded fn_result in
      let e3 = teardown fn_result i ctx (record e2 { world = w3 }) in
      let finish = λ (x : Store.Execution). record x {
        ended_at = some ended_at;
        status = final_status good;
        cost = cost;
      } in
      let store2 = (update_execution execution_id finish e3.store).1 in
      let g = signals i cost good in
      (
        record {
          fn_result = fn_result;
          execution = finish initial;
          updated_snapshot = update_snapshot i cost good g;
          surprise_magnitude = g.surprise.magnitude;
        },
        record { store = store2; world = e3.world },
      )

  -- step 5
  admitted :
      Result Reason (Unit {0})
      → GatewayInput
      → Data
      → String
      → Engine
      → Result Reason GatewaySuccess × Engine
  admitted (err reason) i d execution_id e = (err (before_hook_failed reason), e)
  admitted (ok u) i d execution_id e = let (done, e') = perform i d execution_id e in (ok done, e')

  gated : Result Reason Data → GatewayInput → Engine → Result Reason GatewaySuccess × Engine
  gated (err reason) i e = (err reason, e)
  gated (ok d) i e =
      let (execution_id, w) = fresh_id "exc_" e.world in
      let (before, e') =
        run_hook i.action.hooks.before (context i execution_id) (record e { world = w }) in
      admitted before i d execution_id e'

  pub run_gateway : GatewayInput → Engine → Result Reason GatewaySuccess × Engine
  unfolding gated admitted
  run_gateway i e = gated (gates i) i e
