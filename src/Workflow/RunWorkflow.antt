-- ===== src/Workflow/RunWorkflow.antt =====
-- packages/delta/src/workflow/run-workflow.ts: supervision of one phase, and the phases in order.
-- One reading of the clock stands for all the times that one supervision writes.
pub mod Recorded
pub mod Passing
pub mod Ends
pub mod Resume
use delta_agents.Common.{
  ℕ, String, Bool, true, false, Option, none, some, List, [], ◌∷◌, ◌==◌, or_else, includes, Result,
  ok, err, if◌then◌else◌,
}
use delta_agents.Common.Dict.{Dict}
use delta_agents.Scores.{Scores}
use delta_agents.Types.{SupervisionPolicy, ApprovalStatus, running, paused, workflow_failure}
use delta_agents.State.{Snapshot, Task, with_completed_workflow}
use delta_agents.Store.{
  Store, Checkpoint, EscalationRecord, save_escalation, save_checkpoint, update_task,
  get_latest_checkpoint,
}
use delta_agents.Store.Abort.{AbortError, abort_task, abort_entire_tree}
use delta_agents.Supervision.{SupervisionDecision, apply_strategy}
use delta_agents.Host.{
  Host, ActionContext, snapshot, error, Action, Skill, Reason, escalated_phase, aborted_subtree,
  aborted_tree, cascade_failed, gave_up, exhausted, no_error_message, before_hook_failed,
}
use delta_agents.Execution.{Engine, run_hook, run_late_hook}
use delta_agents.Workflow.{Phase, Workflow, PhaseResult, completed, failed, blocked, RunPhaseInput}
use delta_agents.Workflow.RunPhase.{run_phase}
use delta_agents.Workflow.Retry.{retry_with_jitter}

pub record RunWorkflowInput (F : Scores) (H : Host) : Type 0 where
  pub workflow : Workflow F H
  pub action_registry : Dict (Action F H)
  pub state : Snapshot F.S
  pub get_approval_status : String → ApprovalStatus
  pub input_for : String → H.Input
  pub extras : H.Extras
  pub agent_skills : Option (List Skill)
  pub guidance_enabled : Bool

pub data WorkflowResult (S : Type 0) : Type 0 where
  done : Snapshot S → WorkflowResult S
  stopped :
      (snapshot : Snapshot S) (failed_phase : Option String) (failed_reason : Reason)
      → WorkflowResult S
  waiting : (snapshot : Snapshot S) (failed_phase : String) (reason : Reason) → WorkflowResult S

module _ (F : Scores) (H : Host) where
  open F use {S}
  open H use {World, now, fresh_id, pause}

  -- the state of the phase that waits for oversight
  pub failed_at : Snapshot S → String → Option ℕ → Snapshot S
  failed_at s phase index = record s {
    status = paused;
    current_phase = some phase;
    current_action_index = some (or_else index 0);
  }

  escalate_phase :
      RunPhaseInput F H → Snapshot S → Option ℕ → Reason → Engine F H → PhaseResult S × Engine F H
  unfolding failed_at
  escalate_phase i s index reason e =
      let (id, w1) = fresh_id "esc_" e.world in
      let (at, w2) = now w1 in
      let task_id = i.state.task_id in
      let raised : EscalationRecord = record {
        id = id;
        task_id = task_id;
        trigger = workflow_failure;
        created_at = at;
      } in
      let store1 = (save_escalation raised e.store).1 in
      let (ckpt, w3) = fresh_id "ckpt_" w2 in
      let c : Checkpoint S = record {
        id = ckpt;
        task_id = task_id;
        phase = some i.phase.name;
        state = failed_at s i.phase.name index;
        created_at = at;
      } in
      let store2 = (save_checkpoint c store1).1 in
      let pause_task : Task S → Task S = λ t. record t { status = paused; updated_at = at } in
      (
        blocked s (escalated_phase i.phase.name reason),
        record { store = (update_task task_id pause_task store2).1; world = w3 },
      )

  abort_this : RunPhaseInput F H → Snapshot S → Reason → Engine F H → PhaseResult S × Engine F H
  abort_this i s reason e =
      let (at, w) = now e.world in
      let store = (abort_task (λ id. at) i.state.task_id e.store).1 in
      (
        failed s none none (aborted_subtree i.phase.name reason),
        record { store = store; world = w },
      )

  cascade_reason : Result AbortError (Unit {0}) → String → Reason → Reason
  cascade_reason (ok u) phase reason = aborted_tree phase reason
  cascade_reason (err problem) phase reason = cascade_failed phase

  abort_all_of : RunPhaseInput F H → Snapshot S → Reason → Engine F H → PhaseResult S × Engine F H
  unfolding cascade_reason
  abort_all_of i s reason e =
      let (at, w) = now e.world in
      let (cascade, store) = abort_entire_tree (λ id. at) i.state.root_id e.store in
      (
        failed s none none (cascade_reason cascade i.phase.name reason),
        record { store = store; world = w },
      )

  -- an attempt counts as failed only when the phase fails
  attempt_of : PhaseResult S × Engine F H → Result Reason (PhaseResult S) × Engine F H
  attempt_of (completed s, e) = (ok (completed s), e)
  attempt_of (blocked s reason, e) = (ok (blocked s reason), e)
  attempt_of (failed s action index reason, e) = (err reason, e)

  retried :
      Result Reason (PhaseResult S) × Engine F H
      → RunPhaseInput F H
      → SupervisionPolicy
      → PhaseResult S × Engine F H
  retried (ok result, e) i policy = (result, e)
  retried (err reason, e) i policy =
      (failed i.state none none (exhausted i.phase.name policy.max_retries reason), e)

  pub re_run :
      RunPhaseInput F H
      → RunPhaseInput F H
      → SupervisionPolicy
      → Engine F H
      → PhaseResult S × Engine F H
  unfolding attempt_of retried
  re_run again i policy e =
      let backoff : ℕ → Engine F H → Engine F H =
        λ attempt x. record x { world = pause attempt x.world } in
      retried
        (retry_with_jitter (λ x. attempt_of (run_phase F H again x)) backoff policy.max_retries
          no_error_message e)
        i policy

  pub resumed_state : Option (Checkpoint S) → Snapshot S → Snapshot S
  resumed_state none entry = entry
  resumed_state (some checkpoint) entry = record checkpoint.state { status = running }

  -- `startViaJump` of the input stays in every re-run
  pub supervise :
      SupervisionDecision
      → RunPhaseInput F H
      → SupervisionPolicy
      → Option (Checkpoint S)
      → Snapshot S
      → Option ℕ
      → Reason
      → Engine F H
      → PhaseResult S × Engine F H
  unfolding escalate_phase abort_this abort_all_of re_run resumed_state
  supervise SupervisionDecision.escalate i policy checkpoint s index reason e =
      escalate_phase i s index reason e
  supervise SupervisionDecision.abort_subtree i policy checkpoint s index reason e =
      abort_this i s reason e
  supervise SupervisionDecision.abort_tree i policy checkpoint s index reason e =
      abort_all_of i s reason e
  supervise (SupervisionDecision.give_up max_retries count) i policy checkpoint s index reason e =
      (failed s none none (gave_up i.phase.name max_retries count), e)
  supervise SupervisionDecision.retry i policy checkpoint s index reason e =
      re_run (record i { state = s; start_index = some (or_else index 0) }) i policy e
  supervise (SupervisionDecision.resume id) i policy checkpoint s index reason e =
      re_run (record i { state = resumed_state checkpoint i.state; start_index = some 0 }) i policy
        e
  supervise SupervisionDecision.restart i policy checkpoint s index reason e =
      re_run (record i { start_index = some 0 }) i policy e

  checkpoint_id : Option (Checkpoint S) → Option String
  checkpoint_id none = none
  checkpoint_id (some c) = some c.id

  with_policy :
      Option SupervisionPolicy
      → RunPhaseInput F H
      → Snapshot S
      → Option String
      → Option ℕ
      → Reason
      → Engine F H
      → PhaseResult S × Engine F H
  unfolding checkpoint_id supervise
  with_policy none i s action index reason e = (failed s action index reason, e)
  with_policy (some policy) i s action index reason e =
      let latest = get_latest_checkpoint i.state.task_id e.store in
      supervise (apply_strategy policy 0 (checkpoint_id latest)) i policy latest s index reason e

  after_first : PhaseResult S × Engine F H → RunPhaseInput F H → PhaseResult S × Engine F H
  unfolding with_policy
  after_first (completed s, e) i = (completed s, e)
  after_first (blocked s reason, e) i = (blocked s reason, e)
  after_first (failed s action index reason, e) i =
      with_policy i.phase.supervision i s action index reason e

  pub run_phase_supervised : RunPhaseInput F H → Engine F H → PhaseResult S × Engine F H
  unfolding after_first
  run_phase_supervised i e = after_first (run_phase F H i e) i

  -- where the phase starts: inside it only when the task was paused in it
  index_in : Option String → Option ℕ → String → Option ℕ
  index_in none index phase = none
  index_in (some current) index phase = if phase == current then index else none

  pub start_index_of : Snapshot S → String → Option ℕ
  unfolding index_in
  start_index_of s phase = index_in s.current_phase s.current_action_index phase

  start_flag_of : Option ℕ → Option Bool → Option Bool
  start_flag_of (some index) (some true) = some true
  start_flag_of _ _ = none

  pub phase_input : RunWorkflowInput F H → Phase F H → Snapshot S → RunPhaseInput F H
  unfolding start_index_of start_flag_of
  phase_input i phase s =
      let start = start_index_of i.state phase.name in
      record {
        phase = phase;
        action_registry = i.action_registry;
        state = s;
        get_approval_status = i.get_approval_status;
        input_for = i.input_for;
        extras = i.extras;
        workflow_name = some i.workflow.name;
        start_index = start;
        start_via_jump = start_flag_of start i.state.current_action_via_jump;
        agent_skills = i.agent_skills;
        guidance_enabled = i.guidance_enabled;
      }

  -- the whole workflow ends with the first phase that is not completed
  halt :
      RunWorkflowInput F H
      → ActionContext H
      → Reason
      → WorkflowResult S
      → Engine F H
      → WorkflowResult S × Engine F H
  halt i ctx reason result e =
      (result, run_late_hook F H i.workflow.hooks.on_error ctx (error reason) e)

  pub run_phases :
      List (Phase F H)
      → RunWorkflowInput F H
      → ActionContext H
      → Snapshot S
      → Engine F H
      → WorkflowResult S × Engine F H
  unfolding halt phase_input
  run_phases [] i ctx s e =
      let final = with_completed_workflow s i.workflow.name in
      (done final, run_late_hook F H i.workflow.hooks.after ctx (snapshot final) e)
  run_phases (phase ∷ rest) i ctx s e =
      if includes (or_else i.state.completed_phases []) phase.name
      then run_phases rest i ctx s e
      else (let (result, e') = run_phase_supervised (phase_input i phase s) e in
          elim result [
            | completed s' ↦ run_phases rest i ctx s' e'
            | blocked s' reason ↦ halt i ctx reason (waiting s' phase.name reason) e'
            | failed s' action index reason ↦
                halt i ctx reason (stopped s' (some phase.name) reason) e'
          ])

  begin :
      Result Reason (Unit {0})
      → RunWorkflowInput F H
      → ActionContext H
      → Engine F H
      → WorkflowResult S × Engine F H
  begin (err reason) i ctx e = (stopped i.state none (before_hook_failed reason), e)
  begin (ok u) i ctx e =
      run_phases i.workflow.phases i ctx
        (record i.state { current_workflow = some i.workflow.name }) e

  workflow_context : RunWorkflowInput F H → String → ActionContext H
  workflow_context i execution_id = record {
    task_id = i.state.task_id;
    execution_id = execution_id;
    agent_name = i.state.agent_name;
    phase = none;
    workflow_name = some i.workflow.name;
    available_skills = none;
    extras = i.extras;
  }

  pub run_workflow : RunWorkflowInput F H → Engine F H → WorkflowResult S × Engine F H
  unfolding begin workflow_context
  run_workflow i e =
      let (execution_id, w) = fresh_id "exc_" e.world in
      let ctx = workflow_context i execution_id in
      let (before, e') = run_hook F H i.workflow.hooks.before ctx (record e { world = w }) in
      begin before i ctx e'
