-- ===== src/Workflow/RunWorkflow/Resume.antt =====
-- Where a workflow re-enters a phase that an escalation paused (run-phase.ts writes the checkpoint,
-- run-workflow.ts reads it).
use delta_agents.Common.{
  String, ◌≡◌, refl, ap, sym, subst, Bool, true, false, none, some, ok, or_else, length,
  if◌then◌else◌, eq_refl, Bool-cases, inl, inr,
}
use delta_agents.Scores.{Scores}
use delta_agents.State.{Snapshot, with_escalation}
use delta_agents.Host.{Host}
use delta_agents.Execution.{Engine}
use delta_agents.Workflow.{Phase, ActionRef}
use delta_agents.Workflow.PhaseEnd.{
  Cursor, PhaseRun, ResumePosition, paused_at, resolve_resume_position,
}
use delta_agents.Workflow.RunPhase
use delta_agents.Workflow.RunPhase.Positions.{Agrees, route-Agrees}
use delta_agents.Workflow.RunWorkflow.{
  RunWorkflowInput, phase_input, start_index_of, index_in, start_flag_of,
}

module _ (F : Scores) (H : Host) where
  open F use {S}

  -- the workflow as it is resumed from the checkpoint of a phase paused at `p`
  abbrev pub resumed :
      RunWorkflowInput F H → Snapshot S → Phase F H → ResumePosition F H → RunWorkflowInput F H
  resumed i s phase p = record i { state = paused_at F H s phase.name p }

  -- A paused task whose snapshot carried no jump flag re-enters its phase exactly at the position that
  -- was resolved, as a jump target exactly if that position is one.
  pub phase_input-resumed :
      (i : RunWorkflowInput F H) (s now : Snapshot S) (phase : Phase F H) (p : ResumePosition F H)
      → s.current_action_via_jump ≡ none
      → ((phase_input F H (resumed i s phase p) phase now).start_index ≡ some p.index)
        × ((phase_input F H (resumed i s phase p) phase now).start_via_jump
            ≡ (if p.via_jump then some true else none))
  unfolding phase_input start_index_of index_in start_flag_of paused_at with_escalation
  phase_input-resumed i s now phase p h = elim (Bool-cases p.via_jump) [
    | inl via ↦ rw via (rw (eq_refl phase.name) (refl, refl))
    | inr straight ↦ rw straight (rw (eq_refl phase.name) (refl, rw h refl))
  ]

  -- where the loop enters the phase when the workflow is resumed
  abbrev pub entry_position :
      RunWorkflowInput F H
      → Snapshot S
      → Phase F H
      → ResumePosition F H
      → Snapshot S
      → ResumePosition F H
  entry_position i s phase p now =
      let c = RunPhase.entry F H (phase_input F H (resumed i s phase p) phase now) in
      record { index = c.index; via_jump = c.after_jump }

  flag_back : (via : Bool) → or_else (if via then some true else none) false ≡ via
  flag_back true = refl
  flag_back false = refl

  entry_position-resumed :
      (i : RunWorkflowInput F H) (s now : Snapshot S) (phase : Phase F H) (p : ResumePosition F H)
      → s.current_action_via_jump ≡ none
      → entry_position i s phase p now ≡ p
  unfolding RunPhase.entry
  entry_position-resumed i s now phase p h =
      let (start, flag) = phase_input-resumed i s now phase p h in
      rw (start, flag) (ap (λ via. record p { via_jump = via }) (flag_back p.via_jump))

  -- A phase that an escalation pauses after an action that succeeded, where the snapshot carried no jump
  -- flag, is entered on resume where it would have gone on without the pause: at the same index and as a
  -- jump target exactly if it would have been one, past the list where it would have completed, and at the
  -- action itself where its routing fails.
  pub entry_position-Agrees :
      (i : RunWorkflowInput F H) (ref : ActionRef H) (r : PhaseRun F H) (c : Cursor F H)
      (target : Bool) (name : String) (s now : Snapshot S) (e : Engine F H)
      → s.current_action_via_jump ≡ none
      → let actions = r.input.phase.actions in
        let p = resolve_resume_position F H actions c.index (ok tt) target ref in
        Agrees F H
          (length actions)
          c
          target
          (entry_position i s r.input.phase p now)
          (RunPhase.route F H ref (ok tt) r c target name s e).0
  entry_position-Agrees i ref r c target name s now e h =
      let actions = r.input.phase.actions in
      let p = resolve_resume_position F H actions c.index (ok tt) target ref in
      let out = (RunPhase.route F H ref (ok tt) r c target name s e).0 in
      subst (λ q. Agrees F H (length actions) c target q out)
        (sym (entry_position-resumed i s now r.input.phase p h))
        (route-Agrees F H ref r c target name s e)

  -- A jump flag that an earlier resume left in the snapshot is never cleared: the phase is re-entered as
  -- at a jump target wherever it was paused.
  pub phase_input-stale :
      (i : RunWorkflowInput F H) (s now : Snapshot S) (phase : Phase F H) (p : ResumePosition F H)
      → s.current_action_via_jump ≡ some true
      → (phase_input F H (resumed i s phase p) phase now).start_via_jump ≡ some true
  unfolding phase_input start_index_of index_in start_flag_of paused_at with_escalation
  phase_input-stale i s now phase p h = elim (Bool-cases p.via_jump) [
    | inl via ↦ rw via (rw (eq_refl phase.name) refl)
    | inr straight ↦ rw straight (rw (eq_refl phase.name) (rw h refl))
  ]
