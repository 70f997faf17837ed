-- ===== src/Workflow/RunPhase/Positions.antt =====
-- The position at which a paused phase is resumed is where it would have gone on (run-phase.ts).
use delta_agents.Common.{ℕ, String, ◌≡◌, refl, Bool, false, length, ok, Bool-cases, inl, inr, ◌&&◌}
use delta_agents.Scores.{Scores}
use delta_agents.State.{Snapshot}
use delta_agents.Host.{Host}
use delta_agents.Execution.{Engine}
use delta_agents.Workflow.{
  ActionRef, NextStep, proceed, end_success, end_failure, completed, failed, blocked,
  resolve_next_step,
}
use delta_agents.Workflow.PhaseEnd.{
  Cursor, PhaseRun, StepResult, finished, again, ResumePosition, position_of,
  resolve_resume_position, complete_phase, fail, is_plain,
}
use delta_agents.Workflow.RunPhase

module _ (F : Scores) (H : Host) where
  open F use {S}

  -- what the position says of the step that an unpaused run makes
  abbrev pub Agrees : ℕ → Cursor F H → Bool → ResumePosition F H → StepResult F H → Type 0
  Agrees count c target p (again c') = (p.index ≡ c'.index) × (p.via_jump ≡ c'.after_jump)
  Agrees count c target p (finished (completed s)) = (p.index ≡ count) × (p.via_jump ≡ false)
  Agrees count c target p (finished (failed s action index reason)) =
      (p.index ≡ c.index) × (p.via_jump ≡ target)
  Agrees count c target p (finished (blocked s reason)) = ⊥

  follow-Agrees :
      (next : NextStep) (count : ℕ) (target : Bool) (r : PhaseRun F H) (c : Cursor F H)
      (name : String) (s : Snapshot S) (e : Engine F H)
      → Agrees count c target
          (position_of F H next count c.index target)
          (RunPhase.follow F H next r c name s e).0
  unfolding RunPhase.follow position_of complete_phase fail
  follow-Agrees end_success count target r c name s e = (refl, refl)
  follow-Agrees (end_failure reason) count target r c name s e = (refl, refl)
  follow-Agrees (proceed next via) count target r c name s e = (refl, refl)

  -- The position that is computed for a pause after an action that succeeded agrees with what the phase
  -- does without the pause: it is the index and the jump flag of the cursor that the loop goes on with,
  -- past the list where the phase completes, and the action itself where its routing fails.
  pub route-Agrees :
      (ref : ActionRef H) (r : PhaseRun F H) (c : Cursor F H) (target : Bool) (name : String)
      (s : Snapshot S) (e : Engine F H)
      → Agrees
          (length r.input.phase.actions)
          c
          target
          (resolve_resume_position F H r.input.phase.actions c.index (ok tt) target ref)
          (RunPhase.route F H ref (ok tt) r c target name s e).0
  unfolding RunPhase.route RunPhase.settle_jump resolve_resume_position complete_phase
  route-Agrees ref r c target name s e = elim (Bool-cases (target && is_plain F H ref)) [
    | inl ends ↦ rw ends (refl, refl)
    | inr on ↦ rw on (
        follow-Agrees (resolve_next_step r.input.phase.actions c.index (ok tt))
          (length r.input.phase.actions) target r c name s e)
  ]
