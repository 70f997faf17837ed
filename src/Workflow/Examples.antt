-- ===== src/Workflow/Examples.antt =====
-- The theorems on phases, workflows and escalation at concrete inputs.
use delta_agents.Common.{
  arith, ℕ, ◌≡◌, refl, ◌↔◌, true, false, none, some, [], ◌∷◌, ok, if◌then◌else◌,
}
use delta_agents.Scores.Fixed.{fixed}
use delta_agents.State.{Snapshot}
use delta_agents.Host.{ActionContext}
use delta_agents.Oversight.{check_escalation, context_of, apply_post_step_governance}
use delta_agents.Oversight.Escalation.{
  IsCalm, check_escalation_iff, IsGoverned, apply_post_step_governance-IsGoverned,
}
use delta_agents.Workflow.{
  plain, branch, resolve_next_step, next_of, after_branch, find_action_index,
}
use delta_agents.Workflow.Routing.{Proceeds, resolve_next_step-Proceeds}
use delta_agents.Workflow.PhaseEnd.{Cursor, PhaseRun, ResumePosition, resolve_resume_position}
use delta_agents.Workflow.RunPhase.{run_phase, route, phase_loop}
use delta_agents.Workflow.RunPhase.Limit.{plain-IsForward, phase_loop-IsForward}
use delta_agents.Workflow.RunPhase.Routes.{IsRecorded, IsSettled}
use delta_agents.Workflow.RunPhase.Settled.{run_phase-IsSettled}
use delta_agents.Workflow.RunPhase.Positions.{Agrees}
use delta_agents.Workflow.RunWorkflow.{
  RunWorkflowInput, phase_input, run_phase_supervised, run_workflow,
}
use delta_agents.Workflow.RunWorkflow.Recorded.{run_phase_supervised-IsRecorded}
use delta_agents.Workflow.RunWorkflow.Ends.{IsEnded, run_workflow-IsEnded}
use delta_agents.Workflow.RunWorkflow.Resume.{
  entry_position, entry_position-Agrees, resumed, phase_input-resumed, phase_input-stale,
}
use delta_agents.Tests.Data
use delta_agents.Tests.Data.{host, snap, alarmed, engine, store, phase, workflow_input}

run_workflow-IsEnded_example :
    let (result, e') = run_workflow fixed host workflow_input engine in
    IsEnded fixed host workflow_input engine result e'
run_workflow-IsEnded_example = run_workflow-IsEnded fixed host workflow_input engine

run_phase-IsSettled_example :
    IsSettled fixed host snap "triage" (run_phase fixed host Data.phase_input engine)
run_phase-IsSettled_example = run_phase-IsSettled fixed host Data.phase_input engine

run_phase_supervised-IsRecorded_example :
    let (result, e') = run_phase_supervised fixed host Data.phase_input engine in
    IsRecorded fixed host "triage" result e'
run_phase_supervised-IsRecorded_example =
    run_phase_supervised-IsRecorded fixed host Data.phase_input engine

-- the first phase was completed before
abbrev finished_input : RunWorkflowInput fixed host
finished_input = record workflow_input {
  state = record snap { completed_phases = some ("triage" ∷ []) };
}

abbrev ctx : ActionContext host
ctx = record {
  task_id = "t1";
  execution_id = "exc_";
  agent_name = "support";
  phase = none;
  workflow_name = some "support";
  available_skills = none;
  extras = tt;
}

-- the branch at index 1 sends a success to `refund`, at index 3
resolve_next_step-Proceeds_example : Proceeds phase.actions 1 (ok tt) 3 true
unfolding resolve_next_step next_of after_branch find_action_index
resolve_next_step-Proceeds_example = resolve_next_step-Proceeds phase.actions 1 (ok tt) 3 true refl

abbrev phase_run : PhaseRun fixed host
phase_run = record { input = Data.phase_input; ctx = ctx; phase_skills = [] }

abbrev cursor : Cursor fixed host
cursor = record { index = 1; after_jump = false; state = snap; last_outcome = none }

-- paused after the branch, whose success leads to `refund`
entry_position-Agrees_example :
    let p = resolve_resume_position fixed host phase.actions 1 (ok tt) false (branch Data.route) in
    Agrees fixed host 4 cursor false
      (entry_position fixed host workflow_input snap phase p snap)
      (route fixed host (branch Data.route) (ok tt) phase_run cursor false "lookup" snap engine).0
entry_position-Agrees_example =
    entry_position-Agrees fixed host workflow_input (branch Data.route) phase_run cursor false
      "lookup" snap snap engine refl

-- paused at the jump target
abbrev at_refund : ResumePosition fixed host
at_refund = record { index = 3; via_jump = true }

phase_input-resumed_example :
    ((phase_input fixed host
        (resumed fixed host workflow_input snap phase at_refund)
        phase
        snap).start_index
      ≡ some 3)
    × ((phase_input fixed host
          (resumed fixed host workflow_input snap phase at_refund)
          phase
          snap).start_via_jump
        ≡ (if at_refund.via_jump then some true else none))
phase_input-resumed_example =
    phase_input-resumed fixed host workflow_input snap snap phase at_refund refl

-- paused at a plain action, after an earlier resume at a jump target
abbrev at_lookup : ResumePosition fixed host
at_lookup = record { index = 1; via_jump = false }

abbrev resumed_before : Snapshot ℕ
resumed_before = record snap { current_action_via_jump = some true }

phase_input-stale_example :
    (phase_input fixed host
      (resumed fixed host workflow_input resumed_before phase at_lookup)
      phase
      snap).start_via_jump
    ≡ some true
phase_input-stale_example =
    phase_input-stale fixed host workflow_input resumed_before snap phase at_lookup refl

-- escalation

check_escalation_iff_example :
    (check_escalation fixed (context_of fixed snap 300) ≡ none)
    ↔ IsCalm fixed (context_of fixed snap 300)
check_escalation_iff_example = check_escalation_iff fixed (context_of fixed snap 300)

abbrev risky : Snapshot ℕ
risky = record snap { risk = alarmed }

apply_post_step_governance-IsGoverned_example :
    let (g, store') = apply_post_step_governance fixed "t1" "esc_1" 9 risky 300 true store in
    IsGoverned fixed "t1" "esc_1" 9 risky 300 store g store'
apply_post_step_governance-IsGoverned_example =
    apply_post_step_governance-IsGoverned fixed "t1" "esc_1" 9 risky 300 true store

-- a phase without branches, under the limit of the program and under a limit of 4

abbrev straight_run : PhaseRun fixed host
straight_run = record phase_run {
  input = record Data.phase_input {
    phase = record phase { actions = plain "lookup" ∷ plain "lookup" ∷ plain "refund" ∷ [] };
  };
}

abbrev start : Cursor fixed host
start = record cursor { index = 0 }

phase_loop-IsForward_example :
    phase_loop fixed host 4 straight_run start engine
    ≡ phase_loop fixed host 100 straight_run start engine
phase_loop-IsForward_example =
    phase_loop-IsForward fixed host 3 99 straight_run start engine
      (plain-IsForward fixed host straight_run.input.phase.actions (refl, (refl, (refl, tt))))
      (omega arith) (omega arith)
