-- ===== src/Workflow/RunWorkflow/Recorded.antt =====
-- What supervision and the whole workflow leave behind (workflow/run-workflow.ts).
use delta_agents.Common.{
  ℕ, String, ◌≡◌, refl, ◌∙◌, ap, subst, Option, none, some, or_else, Result, ok, err, eq_refl,
}
use delta_agents.Scores.{Scores}
use delta_agents.Types.{SupervisionPolicy, paused, workflow_failure}
use delta_agents.State.{Snapshot, Task}
use delta_agents.Store.{
  Store, Checkpoint, EscalationRecord, get_latest_checkpoint, save_checkpoint, save_escalation,
  update_task,
}
use delta_agents.Store.Laws.{get_latest_checkpoint-save_checkpoint, checkpoints-update_task}
use delta_agents.Supervision.{SupervisionDecision, apply_strategy}
use delta_agents.Host.{Host, Reason, no_error_message}
use delta_agents.Execution.{Engine}
use delta_agents.Workflow.{PhaseResult, completed, failed, blocked, RunPhaseInput}
use delta_agents.Workflow.RunPhase.{run_phase}
use delta_agents.Workflow.RunPhase.Routes.{IsRecorded, IsSettled}
use delta_agents.Workflow.RunPhase.Settled.{run_phase-IsSettled}
use delta_agents.Workflow.Retry.{retry_with_jitter}
use delta_agents.Workflow.Retry.Attempts.{WhenOk, retry_with_jitter-WhenOk}
use delta_agents.Workflow.RunWorkflow

module _ (F : Scores) (H : Host) where
  open F use {S}
  open H use {World, now, fresh_id, pause}

  abbrev Recorded : String → PhaseResult S × Engine F H → Type 0
  Recorded phase (result, e) = IsRecorded F H phase result e

  get_latest-same :
      (task_id : String) (a b : Store S)
      → b.checkpoints_by_task ≡ a.checkpoints_by_task
      → get_latest_checkpoint task_id b ≡ get_latest_checkpoint task_id a
  unfolding get_latest_checkpoint
  get_latest-same task_id a b e = rw e refl

  escalate_phase-Recorded :
      (i : RunPhaseInput F H) (s : Snapshot S) (index : Option ℕ) (reason : Reason) (e : Engine F H)
      → s.task_id ≡ i.state.task_id
      → Recorded i.phase.name (RunWorkflow.escalate_phase F H i s index reason e)
  unfolding RunWorkflow.escalate_phase RunWorkflow.failed_at
  escalate_phase-Recorded i s index reason e same =
      let (id, w1) = fresh_id "esc_" e.world in
      let (at, w2) = now w1 in
      let (ckpt, w3) = fresh_id "ckpt_" w2 in
      let task_id = i.state.task_id in
      let raised : EscalationRecord = record {
        id = id;
        task_id = task_id;
        trigger = workflow_failure;
        created_at = at;
      } in
      let store1 = (save_escalation raised e.store).1 in
      let c : Checkpoint S = record {
        id = ckpt;
        task_id = task_id;
        phase = some i.phase.name;
        state = RunWorkflow.failed_at F H s i.phase.name index;
        created_at = at;
      } in
      let store2 = (save_checkpoint c store1).1 in
      let pause_task : Task S → Task S = λ t. record t { status = paused; updated_at = at } in
      record {
        checkpoint = c;
        latest =
            ap (λ id. get_latest_checkpoint id (update_task task_id pause_task store2).1) same
            ∙ get_latest-same task_id store2 (update_task task_id pause_task store2).1
                (checkpoints-update_task task_id pause_task store2)
            ∙ get_latest_checkpoint-save_checkpoint c store1 task_id
            ∙ rw (eq_refl task_id) refl;
        holds = (refl, refl, (or_else index 0, refl));
      }

  attempt_of-WhenOk :
      (phase : String) (out : PhaseResult S × Engine F H)
      → Recorded phase out
      → WhenOk (IsRecorded F H phase) (RunWorkflow.attempt_of F H out)
  unfolding RunWorkflow.attempt_of
  attempt_of-WhenOk phase (completed s, e) h = h
  attempt_of-WhenOk phase (blocked s reason, e) h = h
  attempt_of-WhenOk phase (failed s action index reason, e) h = tt

  retried-Recorded :
      (out : Result Reason (PhaseResult S) × Engine F H) (i : RunPhaseInput F H)
      (policy : SupervisionPolicy)
      → WhenOk (IsRecorded F H i.phase.name) out
      → Recorded i.phase.name (RunWorkflow.retried F H out i policy)
  unfolding RunWorkflow.retried
  retried-Recorded (ok result, e) i policy h = h
  retried-Recorded (err reason, e) i policy h = tt

  re_run-Recorded :
      (again i : RunPhaseInput F H) (policy : SupervisionPolicy) (e : Engine F H)
      → again.phase.name ≡ i.phase.name
      → Recorded i.phase.name (RunWorkflow.re_run F H again i policy e)
  unfolding RunWorkflow.re_run
  re_run-Recorded again i policy e same =
      let backoff : ℕ → Engine F H → Engine F H =
        λ attempt x. record x { world = pause attempt x.world } in
      let fn : Engine F H → Result Reason (PhaseResult S) × Engine F H =
        λ x. RunWorkflow.attempt_of F H (run_phase F H again x) in
      retried-Recorded (retry_with_jitter fn backoff policy.max_retries no_error_message e) i policy
        (retry_with_jitter-WhenOk (IsRecorded F H i.phase.name) fn backoff
          (λ x.
            subst (λ p. WhenOk (IsRecorded F H p) (fn x)) same
              (attempt_of-WhenOk again.phase.name (run_phase F H again x)
                (run_phase-IsSettled F H again x).1))
          policy.max_retries no_error_message e)

  supervise-Recorded :
      (decision : SupervisionDecision) (i : RunPhaseInput F H) (policy : SupervisionPolicy)
      (checkpoint : Option (Checkpoint S)) (s : Snapshot S) (index : Option ℕ) (reason : Reason)
      (e : Engine F H)
      → s.task_id ≡ i.state.task_id
      → Recorded i.phase.name
          (RunWorkflow.supervise F H decision i policy checkpoint s index reason e)
  unfolding RunWorkflow.supervise RunWorkflow.abort_this RunWorkflow.abort_all_of
  supervise-Recorded SupervisionDecision.escalate i policy checkpoint s index reason e same =
      escalate_phase-Recorded i s index reason e same
  supervise-Recorded SupervisionDecision.abort_subtree i policy checkpoint s index reason e same =
      tt
  supervise-Recorded SupervisionDecision.abort_tree i policy checkpoint s index reason e same = tt
  supervise-Recorded (SupervisionDecision.give_up most count) i policy checkpoint s index reason e
        same =
      tt
  supervise-Recorded SupervisionDecision.retry i policy checkpoint s index reason e same =
      re_run-Recorded (record i { state = s; start_index = some (or_else index 0) }) i policy e refl
  supervise-Recorded (SupervisionDecision.resume id) i policy checkpoint s index reason e same =
      re_run-Recorded
        (record i {
          state = RunWorkflow.resumed_state F H checkpoint i.state;
          start_index = some 0;
        })
        i policy e refl
  supervise-Recorded SupervisionDecision.restart i policy checkpoint s index reason e same =
      re_run-Recorded (record i { start_index = some 0 }) i policy e refl

  with_policy-Recorded :
      (policy : Option SupervisionPolicy) (i : RunPhaseInput F H) (s : Snapshot S)
      (action : Option String) (index : Option ℕ) (reason : Reason) (e : Engine F H)
      → s.task_id ≡ i.state.task_id
      → Recorded i.phase.name (RunWorkflow.with_policy F H policy i s action index reason e)
  unfolding RunWorkflow.with_policy
  with_policy-Recorded none i s action index reason e same = tt
  with_policy-Recorded (some policy) i s action index reason e same =
      let latest = get_latest_checkpoint i.state.task_id e.store in
      supervise-Recorded (apply_strategy policy 0 (RunWorkflow.checkpoint_id F H latest)) i policy
        latest s index reason e same

  after_first-Recorded :
      (out : PhaseResult S × Engine F H) (i : RunPhaseInput F H)
      → IsSettled F H i.state i.phase.name out
      → Recorded i.phase.name (RunWorkflow.after_first F H out i)
  unfolding RunWorkflow.after_first
  after_first-Recorded (completed s, e) i (x, h) = h
  after_first-Recorded (blocked s reason, e) i (x, h) = h
  after_first-Recorded (failed s action index reason, e) i (x, h) =
      with_policy-Recorded i.phase.supervision i s action index reason e x.task

  -- Under every supervision strategy: a phase that completes is on record as completed in the latest
  -- checkpoint of its task, and a phase that is blocked is paused in it, at an action.
  pub run_phase_supervised-IsRecorded :
      (i : RunPhaseInput F H) (e : Engine F H)
      → let (result, e') = RunWorkflow.run_phase_supervised F H i e in
        IsRecorded F H i.phase.name result e'
  unfolding RunWorkflow.run_phase_supervised
  run_phase_supervised-IsRecorded i e =
      after_first-Recorded (run_phase F H i e) i (run_phase-IsSettled F H i e)
