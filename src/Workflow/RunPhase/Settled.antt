-- ===== src/Workflow/RunPhase/Settled.antt =====
-- What a phase leaves behind, whichever way it ends (workflow/run-phase.ts).
use delta_agents.Common.{
  ℕ, zero, suc, some, List, [], or_else, get_elem?, Result, ok, err, Option-cases, inl, inr,
}
use delta_agents.Scores.{Scores}
use delta_agents.State.{Snapshot}
use delta_agents.Host.{Host, ActionContext, Skill, Reason}
use delta_agents.Execution.{Engine, run_hook}
use delta_agents.Skills.{build_available_skills, resolve_skill_refs}
use delta_agents.Workflow.{PhaseResult, RunPhaseInput}
use delta_agents.Workflow.Extends.{Extends, Extends-refl, Extends-with}
use delta_agents.Workflow.PhaseEnd.{Cursor, PhaseRun, StepResult, finished, again, fail}
use delta_agents.Workflow.RunPhase
use delta_agents.Workflow.RunPhase.Routes.{IsSettled, IsStep, complete_phase-IsSettled}
use delta_agents.Workflow.RunPhase.Steps.{phase_step-IsStep}

module _ (F : Scores) (H : Host) where
  open F use {S}
  open H use {World, Value, now, fresh_id}

  next-IsSettled :
      (base : Snapshot S) (r : PhaseRun F H) (index : ℕ)
      (go : Cursor F H → Engine F H → PhaseResult S × Engine F H)
      (out : StepResult F H × Engine F H)
      → ((c : Cursor F H) (e : Engine F H)
          → Extends base c.state
          → IsSettled F H base r.input.phase.name (go c e))
      → IsStep F H base r index out
      → IsSettled F H base r.input.phase.name
          (elim out.0 [ finished result ↦ (result, out.1) | again c ↦ go c out.1 ])
  next-IsSettled base r index go (finished result, e) rest y = y
  next-IsSettled base r index go (again c, e) rest (x, later) = rest c e x

  phase_loop-IsSettled :
      (fuel : ℕ) (r : PhaseRun F H) (c : Cursor F H) (base : Snapshot S) (e : Engine F H)
      → Extends base c.state
      → IsSettled F H base r.input.phase.name (RunPhase.phase_loop F H fuel r c e)
  unfolding RunPhase.phase_loop fail
  phase_loop-IsSettled zero r c base e x = (x, tt)
  phase_loop-IsSettled (suc fuel) r c base e x =
      elim (Option-cases (get_elem? r.input.phase.actions c.index)) [
        | inl past ↦
            rw (past, RunPhase.phase_loop) (complete_phase-IsSettled F H r c.state base e x)
        | inr (ref, at) ↦
            rw (at, RunPhase.phase_loop)
              (next-IsSettled base r c.index (RunPhase.phase_loop F H fuel r)
                (RunPhase.phase_step F H ref r c e)
                (λ c' e'. phase_loop-IsSettled fuel r c' base e')
                (phase_step-IsStep F H ref r c base e x))
      ]

  enter-IsSettled :
      (before : Result Reason (Unit {0})) (r : PhaseRun F H) (e : Engine F H)
      → IsSettled F H r.input.state r.input.phase.name (RunPhase.enter F H before r e)
  unfolding RunPhase.enter RunPhase.entry
  enter-IsSettled (err reason) r e = (Extends-refl r.input.state, tt)
  enter-IsSettled (ok u) r e =
      let s = r.input.state in
      phase_loop-IsSettled RunPhase.max_steps_per_phase r (RunPhase.entry F H r.input) s e
        (Extends-with s s.risk s.guidance s.completed_phases (some r.input.phase.name))

  started-IsSettled :
      (found : Result Reason (List Skill)) (i : RunPhaseInput F H) (e : Engine F H)
      → IsSettled F H i.state i.phase.name (RunPhase.started F H found i e)
  unfolding RunPhase.started
  started-IsSettled (err reason) i e = (Extends-refl i.state, tt)
  started-IsSettled (ok skills) i e =
      let (listed, w1) = build_available_skills H skills e.world in
      let (execution_id, w2) = fresh_id "exc_" w1 in
      let ctx : ActionContext H = record {
        task_id = i.state.task_id;
        execution_id = execution_id;
        agent_name = i.state.agent_name;
        phase = some i.phase.name;
        workflow_name = i.workflow_name;
        available_skills = RunPhase.some_skills F H listed;
        extras = i.extras;
      } in
      let (before, e') = run_hook F H i.phase.hooks.before ctx (record e { world = w2 }) in
      enter-IsSettled before (record { input = i; ctx = ctx; phase_skills = listed }) e'

  -- A phase, however it ends, keeps the task's identity, budget and status, un-completes no action and
  -- refunds nothing. If it completes, it is listed as completed and the latest checkpoint of the task is
  -- the snapshot that it returns; if it is blocked, the latest checkpoint is paused in it at an action.
  pub run_phase-IsSettled :
      (i : RunPhaseInput F H) (e : Engine F H)
      → IsSettled F H i.state i.phase.name (RunPhase.run_phase F H i e)
  unfolding RunPhase.run_phase
  run_phase-IsSettled i e =
      started-IsSettled (resolve_skill_refs (or_else i.phase.skills []) (or_else i.agent_skills []))
        i e
