-- ===== src/Workflow/RunPhase.antt =====
-- packages/delta/src/workflow/run-phase.ts. The fuel of the loop is what is left of
-- `MAX_STEPS_PER_PHASE`, so the loop ends as the program's does. The texts of failures are `Reason`s.
-- One reading of the clock stands for all that a step of governance takes.
pub mod Routes
pub mod Steps
pub mod Settled
pub mod Limit
pub mod Positions
use delta_agents.Common.{
  ℕ, zero, suc, ◌+◌, String, Bool, true, false, Option, none, some, List, [], ◌∷◌, length, leb,
  get_elem?, or_else, Result, ok, err, if◌then◌else◌, ◌&&◌,
}
use delta_agents.Common.Dict
use delta_agents.Scores.{Scores}
use delta_agents.Types.{paused}
use delta_agents.State.{Snapshot, Task, add_once, with_escalation}
use delta_agents.Store.{Store, Checkpoint, save_checkpoint, update_task}
use delta_agents.Host.{
  Host, ActionContext, AvailableSkill, Payload, snapshot, error, Action, Skill, SkillRef, Reason,
  user, skills_failed, unknown_action, step_limit, escalated_by,
}
use delta_agents.Oversight.{PostStepGovernance, goes_on, escalated, apply_post_step_governance}
use delta_agents.Execution.{Engine, run_hook, run_late_hook, GatewaySuccess, run_gateway}
use delta_agents.Types.{EscalationTrigger}
use delta_agents.Workflow.PhaseEnd.{
  Cursor, PhaseRun, StepResult, finished, again, complete_phase, fail, write_checkpoint,
  resolve_resume_position, paused_at, is_plain,
}
use delta_agents.Skills.{resolve_skill_refs, build_available_skills}
use delta_agents.Workflow.{
  LastOutcome, Branch, ActionRef, plain, branch, Phase, NextStep, proceed, end_success, end_failure,
  PhaseResult, completed, failed, blocked, RunPhaseInput, ref_name, resolve_next_step,
}

abbrev pub max_steps_per_phase : ℕ
max_steps_per_phase = 100

module _ (F : Scores) (H : Host) where
  open F use {S}
  open H use {World, Value, now, fresh_id}

  outcome_of : Result String Value → Result Reason (Unit {0})
  outcome_of (ok v) = ok tt
  outcome_of (err message) = err (user message)

  last_outcome_of : String → Result String Value → LastOutcome
  last_outcome_of action (ok v) = record { action = action; succeeded = true; error = none }
  last_outcome_of action (err message) = record {
    action = action;
    succeeded = false;
    error = some message;
  }

  -- the step that `resolveNextStep` chose
  follow :
      NextStep
      → PhaseRun F H
      → Cursor F H
      → String
      → Snapshot S
      → Engine F H
      → StepResult F H × Engine F H
  follow end_success r c name s e =
      let (result, e') = complete_phase F H r s e in (finished result, e')
  follow (end_failure reason) r c name s e =
      let (result, e') = fail F H r s (some name) (some c.index) reason e in (finished result, e')
  follow (proceed next_index via_jump) r c name s e = (
    again (record {
      index = next_index;
      after_jump = via_jump;
      state = s;
      last_outcome = c.last_outcome;
    }),
    e,
  )

  -- a plain jump target ends the phase, any other action goes where its outcome leads
  settle_jump :
      Result Reason (Unit {0})
      → PhaseRun F H
      → Cursor F H
      → String
      → Snapshot S
      → Engine F H
      → StepResult F H × Engine F H
  settle_jump (ok u) r c name s e =
      let (result, e') = complete_phase F H r s e in (finished result, e')
  settle_jump (err reason) r c name s e =
      let (result, e') = fail F H r s (some name) (some c.index) reason e in (finished result, e')

  pub route :
      ActionRef H
      → Result Reason (Unit {0})
      → PhaseRun F H
      → Cursor F H
      → Bool
      → String
      → Snapshot S
      → Engine F H
      → StepResult F H × Engine F H
  unfolding settle_jump follow
  route ref result r c is_jump_target name s e =
      if is_jump_target && is_plain F H ref
      then settle_jump result r c name s e
      else follow (resolve_next_step r.input.phase.actions c.index result) r c name s e

  -- a successful action is governed, and an escalation pauses the phase where it would go on
  governed :
      PostStepGovernance F
      → ActionRef H
      → PhaseRun F H
      → Cursor F H
      → Bool
      → String
      → Engine F H
      → StepResult F H × Engine F H
  governed (goes_on s) ref r c is_jump_target name e = route ref (ok tt) r c is_jump_target name s e
  governed (escalated s trigger) ref r c is_jump_target name e =
      let reason = escalated_by trigger in
      let told = run_late_hook F H r.input.phase.hooks.on_error r.ctx (error reason) e in
      let p =
        resolve_resume_position F H r.input.phase.actions c.index (ok tt) is_jump_target ref in
      let e' =
        write_checkpoint F H r.input.phase.name (paused_at F H s r.input.phase.name p) told in
      (finished (blocked s reason), e')

  after_action :
      Result String Value
      → GatewaySuccess F H
      → ActionRef H
      → PhaseRun F H
      → Cursor F H
      → Bool
      → String
      → Engine F H
      → StepResult F H × Engine F H
  unfolding governed outcome_of
  after_action (ok v) g ref r c is_jump_target name e =
      let s = g.updated_snapshot in
      let (id, w1) = fresh_id "esc_" e.world in
      let (at, w2) = now w1 in
      let (gov, store) =
        apply_post_step_governance F s.task_id id at s g.surprise_magnitude r.input.guidance_enabled
          e.store in
      governed gov ref r c is_jump_target name (record { store = store; world = w2 })
  after_action (err message) g ref r c is_jump_target name e =
      let s = g.updated_snapshot in
      let (at, w) = now e.world in
      let patch = λ (t : Task S). record t { risk = s.risk; trust = s.trust; updated_at = at } in
      let store = (update_task s.task_id patch e.store).1 in
      route ref (err (user message)) r c is_jump_target name s (record { store = store; world = w })

  -- the gateway's answer
  ran :
      Result Reason (GatewaySuccess F H)
      → ActionRef H
      → PhaseRun F H
      → Cursor F H
      → Bool
      → String
      → Engine F H
      → StepResult F H × Engine F H
  unfolding after_action last_outcome_of
  ran (err reason) ref r c is_jump_target name e =
      let (result, e') = fail F H r c.state (some name) (some c.index) reason e in
      (finished result, e')
  ran (ok g) ref r c is_jump_target name e =
      let c' = record c {
        state = g.updated_snapshot;
        last_outcome = some (last_outcome_of name g.fn_result);
      } in
      after_action g.fn_result g ref r c' is_jump_target name e

  some_skills : List AvailableSkill → Option (List AvailableSkill)
  some_skills [] = none
  some_skills (s ∷ rest) = some (s ∷ rest)

  run_action :
      Action F H
      → List AvailableSkill
      → ActionRef H
      → PhaseRun F H
      → Cursor F H
      → Bool
      → String
      → Engine F H
      → StepResult F H × Engine F H
  unfolding ran some_skills
  run_action action skills ref r c is_jump_target name e =
      let (answer, e') =
        run_gateway F H
          (record {
            action = action;
            raw_input = r.input.input_for name;
            state = c.state;
            approval_status = r.input.get_approval_status name;
            reasoning_cost = none;
            step_index = 0;
            workflow_name = r.input.workflow_name;
            available_skills = some_skills skills;
            extras = r.input.extras;
          })
          e in
      ran answer ref r c is_jump_target name e'

  with_skills :
      Result Reason (List Skill)
      → Action F H
      → ActionRef H
      → PhaseRun F H
      → Cursor F H
      → Bool
      → String
      → Engine F H
      → StepResult F H × Engine F H
  unfolding run_action
  with_skills (err reason) action ref r c is_jump_target name e =
      let (result, e') =
        fail F H r c.state (some name) (some c.index) (skills_failed name reason) e in
      (finished result, e')
  with_skills (ok skills) action ref r c is_jump_target name e =
      let (listed, w) = build_available_skills H skills e.world in
      run_action action listed ref r c is_jump_target name (record e { world = w })

  -- the action's own skills override those of the phase
  choose_skills :
      Option (List SkillRef)
      → Action F H
      → ActionRef H
      → PhaseRun F H
      → Cursor F H
      → Bool
      → String
      → Engine F H
      → StepResult F H × Engine F H
  unfolding with_skills
  choose_skills none action ref r c is_jump_target name e =
      run_action action r.phase_skills ref r c is_jump_target name e
  choose_skills (some refs) action ref r c is_jump_target name e =
      with_skills (resolve_skill_refs refs (or_else r.input.agent_skills [])) action ref r c
        is_jump_target name e

  look_up :
      Option (Action F H)
      → ActionRef H
      → PhaseRun F H
      → Cursor F H
      → Bool
      → String
      → Engine F H
      → StepResult F H × Engine F H
  unfolding choose_skills
  look_up none ref r c is_jump_target name e =
      let (result, e') = fail F H r c.state (some name) (some c.index) (unknown_action name) e in
      (finished result, e')
  look_up (some action) ref r c is_jump_target name e =
      choose_skills action.skills action ref r c is_jump_target name e

  guard_passes : ActionRef H → PhaseRun F H → Cursor F H → Bool
  guard_passes (plain name) r c = true
  guard_passes (branch b) r c = elim b.when [
    | none ↦ true
    | some guard ↦ guard r.ctx c.last_outcome
  ]

  -- one round of the loop; a false guard skips its branch
  pub phase_step :
      ActionRef H → PhaseRun F H → Cursor F H → Engine F H → StepResult F H × Engine F H
  unfolding look_up guard_passes
  phase_step ref r c e =
      let name = ref_name ref in
      if guard_passes ref r c
      then look_up (Dict.get r.input.action_registry name) ref r (record c { after_jump = false })
          c.after_jump name e
      else (again (record c { index = c.index + 1; after_jump = false }), e)

  -- the loop; at the limit the phase fails, past the list it is complete
  pub phase_loop : ℕ → PhaseRun F H → Cursor F H → Engine F H → PhaseResult S × Engine F H
  phase_loop zero r c e = fail F H r c.state none none (step_limit r.input.phase.name) e
  phase_loop (suc fuel) r c e = elim (get_elem? r.input.phase.actions c.index) [
    | none ↦ complete_phase F H r c.state e
    | some ref ↦
        let (step, e') = phase_step ref r c e in
        elim step [ finished result ↦ (result, e') | again c' ↦ phase_loop fuel r c' e' ]
  ]

  abbrev start_flag : Option ℕ → Option Bool → Bool
  start_flag none via_jump = false
  start_flag (some i) via_jump = or_else via_jump false

  -- where the loop enters the phase
  unfoldable pub entry : RunPhaseInput F H → Cursor F H
  entry i = record {
    index = or_else i.start_index 0;
    after_jump = start_flag i.start_index i.start_via_jump;
    state = record i.state { current_phase = some i.phase.name };
    last_outcome = none;
  }

  enter : Result Reason (Unit {0}) → PhaseRun F H → Engine F H → PhaseResult S × Engine F H
  enter (err reason) r e = (failed r.input.state none none (Reason.before_hook_failed reason), e)
  enter (ok u) r e = phase_loop max_steps_per_phase r (entry r.input) e

  started : Result Reason (List Skill) → RunPhaseInput F H → Engine F H → PhaseResult S × Engine F H
  unfolding enter
  started (err reason) i e = (failed i.state none none (skills_failed i.phase.name reason), e)
  started (ok skills) i e =
      let (listed, w1) = build_available_skills H skills e.world in
      let (execution_id, w2) = fresh_id "exc_" w1 in
      let ctx : ActionContext H = record {
        task_id = i.state.task_id;
        execution_id = execution_id;
        agent_name = i.state.agent_name;
        phase = some i.phase.name;
        workflow_name = i.workflow_name;
        available_skills = some_skills listed;
        extras = i.extras;
      } in
      let (before, e') = run_hook F H i.phase.hooks.before ctx (record e { world = w2 }) in
      enter before (record { input = i; ctx = ctx; phase_skills = listed }) e'

  pub run_phase : RunPhaseInput F H → Engine F H → PhaseResult S × Engine F H
  unfolding started
  run_phase i e =
      started (resolve_skill_refs (or_else i.phase.skills []) (or_else i.agent_skills [])) i e
