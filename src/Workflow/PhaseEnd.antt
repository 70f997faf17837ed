-- ===== src/Workflow/PhaseEnd.antt =====
-- packages/delta/src/workflow/run-phase.ts, the ends of a phase: its completion with the checkpoint that
-- proves it, its failure, and where a phase that an escalation pauses goes on later.
use delta_agents.Common.{
  ℕ, String, Bool, true, false, Option, some, List, [], length, or_else, Result, if◌then◌else◌,
  ◌&&◌,
}
use delta_agents.Scores.{Scores}
use delta_agents.Types.{paused}
use delta_agents.State.{Snapshot, add_once, with_escalation}
use delta_agents.Store.{Checkpoint, save_checkpoint}
use delta_agents.Host.{Host, ActionContext, AvailableSkill, snapshot, error, Reason}
use delta_agents.Execution.{Engine, run_late_hook}
use delta_agents.Workflow.{
  LastOutcome, ActionRef, plain, branch, NextStep, proceed, end_success, end_failure, PhaseResult,
  completed, failed, RunPhaseInput, resolve_next_step,
}

module _ (F : Scores) (H : Host) where
  open F use {S}
  open H use {World, Value, now, fresh_id}

  -- the variables of the loop
  pub record Cursor : Type 0 where
    pub index : ℕ
    pub after_jump : Bool
    pub state : Snapshot S
    pub last_outcome : Option LastOutcome

  -- what is fixed while a phase runs
  pub record PhaseRun : Type 0 where
    pub input : RunPhaseInput F H
    pub ctx : ActionContext H
    pub phase_skills : List AvailableSkill

  pub data StepResult : Type 0 where
    finished : PhaseResult S → StepResult
    again : Cursor → StepResult

  -- `completedPhases` with this phase once
  unfoldable pub advance : Snapshot S → String → Snapshot S
  advance s phase = record s {
    completed_phases = some (add_once (or_else s.completed_phases []) phase);
  }

  unfoldable pub checkpoint_of : String → ℕ → String → Snapshot S → Checkpoint S
  checkpoint_of id at phase s = record {
    id = id;
    task_id = s.task_id;
    phase = some phase;
    state = s;
    created_at = at;
  }

  unfoldable pub write_checkpoint : String → Snapshot S → Engine F H → Engine F H
  unfolding checkpoint_of
  write_checkpoint phase s e =
      let (id, w1) = fresh_id "ckpt_" e.world in
      let (at, w2) = now w1 in
      record { store = (save_checkpoint (checkpoint_of id at phase s) e.store).1; world = w2 }

  unfoldable pub complete_phase : PhaseRun → Snapshot S → Engine F H → PhaseResult S × Engine F H
  unfolding advance
  complete_phase r s e =
      let advanced = advance s r.input.phase.name in
      let e' = write_checkpoint r.input.phase.name advanced e in
      (completed advanced, run_late_hook F H r.input.phase.hooks.after r.ctx (snapshot advanced) e')

  -- the phase's `onError` hook, and the failure
  unfoldable pub fail :
      PhaseRun
      → Snapshot S
      → Option String
      → Option ℕ
      → Reason
      → Engine F H
      → PhaseResult S × Engine F H
  fail r s action index reason e = (
    failed s action index reason,
    run_late_hook F H r.input.phase.hooks.on_error r.ctx (error reason) e,
  )

  pub record ResumePosition : Type 0 where
    pub index : ℕ
    pub via_jump : Bool

  unfoldable pub position_of : NextStep → ℕ → ℕ → Bool → ResumePosition
  position_of (proceed next_index via_jump) count index is_jump_target = record {
    index = next_index;
    via_jump = via_jump;
  }
  position_of (end_failure reason) count index is_jump_target = record {
    index = index;
    via_jump = is_jump_target;
  }
  position_of end_success count index is_jump_target = record { index = count; via_jump = false }

  abbrev pub is_plain : ActionRef H → Bool
  is_plain (plain name) = true
  is_plain (branch b) = false

  unfoldable pub resolve_resume_position :
      List (ActionRef H) → ℕ → Result Reason (Unit {0}) → Bool → ActionRef H → ResumePosition
  unfolding position_of
  resolve_resume_position actions index result is_jump_target ref =
      if is_jump_target && is_plain ref
      then record { index = length actions; via_jump = false }
      else position_of (resolve_next_step actions index result) (length actions) index
          is_jump_target

  -- the snapshot that the checkpoint of a mid-phase escalation holds: the jump flag is written only
  -- when it is true
  unfoldable pub paused_at : Snapshot S → String → ResumePosition → Snapshot S
  paused_at s phase p = record (with_escalation s false) {
    status = paused;
    current_phase = some phase;
    current_action_index = some p.index;
    current_action_via_jump = if p.via_jump then some true else s.current_action_via_jump;
  }
