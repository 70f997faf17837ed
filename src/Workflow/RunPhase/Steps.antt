-- ===== src/Workflow/RunPhase/Steps.antt =====
-- What one round of the loop of a phase leaves behind (workflow/run-phase.ts).
use delta_agents.Common.{
  ℕ, String, ◌≡◌, refl, sym, ap, subst, Bool, true, false, Option, none, some, List, [], or_else,
  arith, Result, ok, err, Bool-cases, inl, inr,
}
use delta_agents.Common.Dict
use delta_agents.Scores.{Scores}
use delta_agents.State.{Snapshot, Task, with_escalation}
use delta_agents.Store.{Store, update_task}
use delta_agents.Host.{
  Host, Action, AvailableSkill, Skill, SkillRef, Reason, user, error, escalated_by,
}
use delta_agents.Execution.{Engine, GatewaySuccess, GatewayInput, run_gateway, run_late_hook}
use delta_agents.Execution.Gateway.{run_gateway-IsPerformed}
use delta_agents.Oversight.{PostStepGovernance, goes_on, escalated, apply_post_step_governance}
use delta_agents.Oversight.Escalation.{IsGoverned, apply_post_step_governance-IsGoverned}
use delta_agents.Skills.{build_available_skills, resolve_skill_refs}
use delta_agents.Workflow.{ActionRef, blocked, ref_name}
use delta_agents.Workflow.Extends.{Extends, Extends-with, Extends-trans, IsPerformed-Extends}
use delta_agents.Workflow.PhaseEnd.{
  Cursor, PhaseRun, ResumePosition, resolve_resume_position, write_checkpoint, fail, paused_at,
}
use delta_agents.Workflow.RunPhase
use delta_agents.Workflow.RunPhase.Routes.{
  IsRecorded, IsStep, write_checkpoint-latest, route-IsStep,
}

module _ (F : Scores) (H : Host) where
  open F use {S}
  open H use {World, Value, now, fresh_id}

  paused_at-IsRecorded :
      (phase : String) (s : Snapshot S) (p : ResumePosition F H) (reason : Reason) (e : Engine F H)
      → IsRecorded F H phase
          (blocked s reason)
          (write_checkpoint F H phase (paused_at F H s phase p) e)
  unfolding paused_at with_escalation
  paused_at-IsRecorded phase s p reason e =
      let written = write_checkpoint-latest F H phase (paused_at F H s phase p) e in
      record {
        checkpoint = written.checkpoint;
        latest = written.latest;
        holds = (
          ap (λ (x : Snapshot S). x.status) written.holds,
          ap (λ (x : Snapshot S). x.current_phase) written.holds,
          (p.index, ap (λ (x : Snapshot S). x.current_action_index) written.holds),
        );
      }

  abbrev GovernedFrom : Snapshot S → PostStepGovernance F → Type 0
  GovernedFrom s (goes_on s') = Extends s s'
  GovernedFrom s (escalated s' trigger) = Extends s s'

  IsGoverned-From :
      (task_id id : String) (at : ℕ) (s : Snapshot S) (magnitude : S) (store : Store S)
      (g : PostStepGovernance F) (store' : Store S)
      → IsGoverned F task_id id at s magnitude store g store'
      → GovernedFrom s g
  unfolding with_escalation
  IsGoverned-From task_id id at s magnitude store (goes_on s') store' (h, same, _, _, _) =
      subst (Extends s) (sym same)
        (Extends-with s s.risk s'.guidance s.completed_phases s.current_phase)
  IsGoverned-From task_id id at s magnitude store (escalated s' trigger) store'
        (h, same, _, _, _, _) =
      subst (Extends s) (sym same)
        (Extends-with s (with_escalation s true).risk s.guidance s.completed_phases s.current_phase)

  governed-IsStep :
      (g : PostStepGovernance F) (ref : ActionRef H) (r : PhaseRun F H) (c : Cursor F H)
      (target : Bool) (name : String) (s base : Snapshot S) (e : Engine F H)
      → Extends base s
      → GovernedFrom s g
      → IsStep F H base r c.index (RunPhase.governed F H g ref r c target name e)
  unfolding RunPhase.governed
  governed-IsStep (goes_on s') ref r c target name s base e x y =
      route-IsStep F H ref (ok tt) r c target name s' base e (Extends-trans base s s' x y)
  governed-IsStep (escalated s' trigger) ref r c target name s base e x y =
      let reason = escalated_by trigger in
      let told = run_late_hook F H r.input.phase.hooks.on_error r.ctx (error reason) e in
      let p = resolve_resume_position F H r.input.phase.actions c.index (ok tt) target ref in
      (Extends-trans base s s' x y, paused_at-IsRecorded r.input.phase.name s' p reason told)

  after_action-IsStep :
      (result : Result String Value) (g : GatewaySuccess F H) (ref : ActionRef H) (r : PhaseRun F H)
      (c : Cursor F H) (target : Bool) (name : String) (base : Snapshot S) (e : Engine F H)
      → Extends base g.updated_snapshot
      → IsStep F H base r c.index (RunPhase.after_action F H result g ref r c target name e)
  unfolding RunPhase.after_action
  after_action-IsStep (ok v) g ref r c target name base e x =
      let s = g.updated_snapshot in
      let (id, w1) = fresh_id "esc_" e.world in
      let (at, w2) = now w1 in
      let (gov, store) =
        apply_post_step_governance F s.task_id id at s g.surprise_magnitude r.input.guidance_enabled
          e.store in
      governed-IsStep gov ref r c target name s base (record { store = store; world = w2 }) x
        (IsGoverned-From s.task_id id at s g.surprise_magnitude e.store gov store (
          apply_post_step_governance-IsGoverned F s.task_id id at s g.surprise_magnitude
            r.input.guidance_enabled e.store))
  after_action-IsStep (err message) g ref r c target name base e x =
      let s = g.updated_snapshot in
      let (at, w) = now e.world in
      let patch : Task S → Task S =
        λ t. record t { risk = s.risk; trust = s.trust; updated_at = at } in
      let store = (update_task s.task_id patch e.store).1 in
      route-IsStep F H ref (err (user message)) r c target name s base
        (record { store = store; world = w }) x

  ran-IsStep :
      (answer : Result Reason (GatewaySuccess F H)) (ref : ActionRef H) (r : PhaseRun F H)
      (c : Cursor F H) (target : Bool) (name : String) (base : Snapshot S) (e : Engine F H)
      → Extends base c.state
      → ((g : GatewaySuccess F H) → answer ≡ ok g → Extends c.state g.updated_snapshot)
      → IsStep F H base r c.index (RunPhase.ran F H answer ref r c target name e)
  unfolding RunPhase.ran fail
  ran-IsStep (err reason) ref r c target name base e x grown = (x, tt)
  ran-IsStep (ok g) ref r c target name base e x grown =
      let c' : Cursor F H = record c {
        state = g.updated_snapshot;
        last_outcome = some (RunPhase.last_outcome_of F H name g.fn_result);
      } in
      after_action-IsStep g.fn_result g ref r c' target name base e
        (Extends-trans base c.state g.updated_snapshot x (grown g refl))

  run_action-IsStep :
      (action : Action F H) (skills : List AvailableSkill) (ref : ActionRef H) (r : PhaseRun F H)
      (c : Cursor F H) (target : Bool) (name : String) (base : Snapshot S) (e : Engine F H)
      → Extends base c.state
      → IsStep F H base r c.index (RunPhase.run_action F H action skills ref r c target name e)
  unfolding RunPhase.run_action
  run_action-IsStep action skills ref r c target name base e x =
      let i : GatewayInput F H = record {
        action = action;
        raw_input = r.input.input_for name;
        state = c.state;
        approval_status = r.input.get_approval_status name;
        reasoning_cost = none;
        step_index = 0;
        workflow_name = r.input.workflow_name;
        available_skills = RunPhase.some_skills F H skills;
        extras = r.input.extras;
      } in
      let (answer, e') = run_gateway F H i e in
      ran-IsStep answer ref r c target name base e' x (λ g h.
        IsPerformed-Extends F H i g e.store e'.store (run_gateway-IsPerformed F H i e g h).1)

  with_skills-IsStep :
      (found : Result Reason (List Skill)) (action : Action F H) (ref : ActionRef H)
      (r : PhaseRun F H) (c : Cursor F H) (target : Bool) (name : String) (base : Snapshot S)
      (e : Engine F H)
      → Extends base c.state
      → IsStep F H base r c.index (RunPhase.with_skills F H found action ref r c target name e)
  unfolding RunPhase.with_skills fail
  with_skills-IsStep (err reason) action ref r c target name base e x = (x, tt)
  with_skills-IsStep (ok skills) action ref r c target name base e x =
      let (listed, w) = build_available_skills H skills e.world in
      run_action-IsStep action listed ref r c target name base (record e { world = w }) x

  choose_skills-IsStep :
      (refs : Option (List SkillRef)) (action : Action F H) (ref : ActionRef H) (r : PhaseRun F H)
      (c : Cursor F H) (target : Bool) (name : String) (base : Snapshot S) (e : Engine F H)
      → Extends base c.state
      → IsStep F H base r c.index (RunPhase.choose_skills F H refs action ref r c target name e)
  unfolding RunPhase.choose_skills
  choose_skills-IsStep none action ref r c target name base e x =
      run_action-IsStep action r.phase_skills ref r c target name base e x
  choose_skills-IsStep (some refs) action ref r c target name base e x =
      with_skills-IsStep (resolve_skill_refs refs (or_else r.input.agent_skills [])) action ref r c
        target name base e x

  look_up-IsStep :
      (found : Option (Action F H)) (ref : ActionRef H) (r : PhaseRun F H) (c : Cursor F H)
      (target : Bool) (name : String) (base : Snapshot S) (e : Engine F H)
      → Extends base c.state
      → IsStep F H base r c.index (RunPhase.look_up F H found ref r c target name e)
  unfolding RunPhase.look_up fail
  look_up-IsStep none ref r c target name base e x = (x, tt)
  look_up-IsStep (some action) ref r c target name base e x =
      choose_skills-IsStep action.skills action ref r c target name base e x

  pub phase_step-IsStep :
      (ref : ActionRef H) (r : PhaseRun F H) (c : Cursor F H) (base : Snapshot S) (e : Engine F H)
      → Extends base c.state
      → IsStep F H base r c.index (RunPhase.phase_step F H ref r c e)
  unfolding RunPhase.phase_step
  phase_step-IsStep ref r c base e x = elim (Bool-cases (RunPhase.guard_passes F H ref r c)) [
    | inl runs ↦ rw runs (
        look_up-IsStep (Dict.get r.input.action_registry (ref_name ref)) ref r
          (record c { after_jump = false }) c.after_jump (ref_name ref) base e x)
    | inr skipped ↦ rw skipped (x, λ forward. omega arith)
  ]
