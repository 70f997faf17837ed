-- ===== src/Lifecycle.antt =====
-- packages/delta/src/engine/runtime-lifecycle.ts: pause, resume and inspect. What drives a task after it is
-- resumed (the commit step, a workflow, the reasoner loop) is a parameter, and so is the agent; the
-- events are left out. The store of ports/in-memory-store.ts fails no write.
pub mod Gate
use delta_agents.Common.{
  ℕ, String, Bool, true, false, Option, none, some, List, [], ◌∷◌, Result, ok, err, or_else,
  if◌then◌else◌,
}
use delta_agents.Scores.{Scores}
use delta_agents.Types.{ExecutionStatus, running, paused, pending, pending_commit}
use delta_agents.State.{Snapshot, Task, snapshot_from_task, with_status}
use delta_agents.Store.{
  Store, Execution, Checkpoint, ApprovalRequest, EscalationRecord, get_task, update_task,
  transition_task_status, get_latest_checkpoint, save_checkpoint, get_escalations_by_task,
}
use delta_agents.Store.Queries.{get_executions_by_task, get_pending_approvals}
use delta_agents.Host.{Host}
use delta_agents.Execution.{Engine}

pub data LifecycleError : Type 0 where
  not_found not_swapped : String → LifecycleError
  already_terminal : String → ExecutionStatus → LifecycleError

unfoldable pub is_terminal : ExecutionStatus → Bool
is_terminal ExecutionStatus.completed = true
is_terminal ExecutionStatus.failed = true
is_terminal ExecutionStatus.aborted = true
is_terminal _ = false

pub record InspectResult (S : Type 0) : Type 0 where
  pub task : Task S
  pub executions : List Execution
  pub latest_checkpoint : Option (Checkpoint S)
  pub escalations : List EscalationRecord
  pub pending_approvals : List ApprovalRequest

-- the statuses from which a resume swaps to running
abbrev pub swapped_from : List ExecutionStatus
swapped_from = paused ∷ pending ∷ pending_commit ∷ []

module _ {S : Type 0} where
  -- the snapshot of the latest checkpoint, or one made from the task
  unfoldable pub best : Option (Checkpoint S) → Task S → Snapshot S
  best none task = snapshot_from_task task
  best (some c) task = c.state

  inspected : String → Result String (Task S) → Store S → Result LifecycleError (InspectResult S)
  inspected id (err e) s = err (not_found id)
  inspected id (ok task) s = ok (record {
    task = task;
    executions = get_executions_by_task id s;
    latest_checkpoint = get_latest_checkpoint id s;
    escalations = get_escalations_by_task id s;
    pending_approvals = get_pending_approvals id s;
  })

  pub inspect_task : String → Store S → Result LifecycleError (InspectResult S)
  unfolding inspected
  inspect_task id s = inspected id (get_task id s) s

-- What drives a task on: the commit step, a workflow, the reasoner loop.
pub record Drivers (F : Scores) (H : Host) (O : Type 0) : Type 0 where
  pub commit_step : Task F.S → Snapshot F.S → Engine F H → O × Engine F H
  pub workflow_task : Task F.S → String → Snapshot F.S → Engine F H → O × Engine F H
  pub send_loop : Task F.S → Snapshot F.S → Engine F H → O × Engine F H

module _ {F : Scores} {H : Host} where
  open F use {S}
  open H use {now, fresh_id}

  -- the checkpoint of a pause, and the task that is paused
  unfoldable pub write_pause : String → Snapshot S → Engine F H → Engine F H
  write_pause id snapshot e =
      let (ckpt_id, w1) = fresh_id "ckpt_" e.world in
      let (created, w2) = now w1 in
      let ckpt : Checkpoint S = record {
        id = ckpt_id;
        task_id = id;
        phase = none;
        state = with_status snapshot paused;
        created_at = created;
      } in
      let store1 = (save_checkpoint ckpt e.store).1 in
      let (updated, w3) = now w2 in
      let store2 =
        (update_task id (λ t. record t { status = paused; updated_at = updated }) store1).1 in
      record { store = store2; world = w3 }

  pause_found :
      String → Result String (Task S) → Engine F H → Result LifecycleError (Unit {0}) × Engine F H
  pause_found id (err x) e = (err (not_found id), e)
  pause_found id (ok task) e =
      if is_terminal task.status
      then (err (already_terminal id task.status), e)
      else (ok tt, write_pause id (best (get_latest_checkpoint id e.store) task) e)

  unfoldable pub pause_task : String → Engine F H → Result LifecycleError (Unit {0}) × Engine F H
  unfolding pause_found
  pause_task id e = pause_found id (get_task id e.store) e

  module _ {O : Type 0} where
    pub free_or_workflow :
        Drivers F H O → Option String → Task S → Snapshot S → Engine F H → O × Engine F H
    free_or_workflow d none task s e = d.send_loop task s e
    free_or_workflow d (some name) task s e = d.workflow_task task name s e

    -- by the status before the swap: a pending commit comes before the workflow
    drive : Drivers F H O → ExecutionStatus → Task S → Snapshot S → Engine F H → O × Engine F H
    unfolding free_or_workflow
    drive d pending_commit task s e = d.commit_step task s e
    drive d _ task s e = free_or_workflow d task.workflow task s e

    gate :
        Drivers F H O
        → String
        → Task S
        → Snapshot S
        → Result String (Task S)
        → Engine F H
        → Result LifecycleError O × Engine F H
    unfolding drive
    gate d id task s (err x) e = (err (not_swapped id), e)
    gate d id task s (ok updated) e = let (o, e') = drive d task.status task s e in (ok o, e')

    resume_found :
        Drivers F H O
        → String
        → Result String (Task S)
        → Engine F H
        → Result LifecycleError O × Engine F H
    unfolding gate
    resume_found d id (err x) e = (err (not_found id), e)
    resume_found d id (ok task) e =
        let starting = with_status (best (get_latest_checkpoint id e.store) task) running in
        let (at, w) = now e.world in
        let (swapped, store) = transition_task_status id swapped_from running at e.store in
        gate d id task starting swapped (record { store = store; world = w })

    unfoldable pub resume_task :
        Drivers F H O → String → Engine F H → Result LifecycleError O × Engine F H
    unfolding resume_found
    resume_task d id e = resume_found d id (get_task id e.store) e
