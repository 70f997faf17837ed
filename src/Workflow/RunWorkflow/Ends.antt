-- ===== src/Workflow/RunWorkflow/Ends.antt =====
-- How a workflow ends (workflow/run-workflow.ts).
use delta_agents.Common.{
  ℕ, String, ◌≡◌, refl, subst, true, false, Option, none, some, List, [], ◌∷◌, Result, ok, err,
  Bool-cases, inl, inr,
}
use delta_agents.Scores.{Scores}
use delta_agents.Types.{paused}
use delta_agents.State.{Snapshot, with_completed_workflow}
use delta_agents.Host.{Host, ActionContext, Reason, before_hook_failed, error, snapshot}
use delta_agents.Execution.{Engine, run_hook, run_late_hook}
use delta_agents.Execution.Gateway.{IsSameButDesk}
use delta_agents.Workflow.{Phase, PhaseResult, completed, failed, blocked}
use delta_agents.Workflow.RunPhase.Routes.{HasLatest, IsRecorded, HasLatest-run_late_hook}
use delta_agents.Workflow.RunWorkflow.Recorded.{run_phase_supervised-IsRecorded}
use delta_agents.Workflow.RunWorkflow.Passing.{
  was_completed, outcome, Passed, none_left, skips, completes, HaltsAt, HaltsAt-skips,
  HaltsAt-completes,
}
use delta_agents.Workflow.RunWorkflow
use delta_agents.Workflow.RunWorkflow.{RunWorkflowInput, WorkflowResult, done, stopped, waiting}

module _ (F : Scores) (H : Host) where
  open F use {S}
  open H use {World, fresh_id}

  -- what holds of the result of the phases, run from a snapshot and an engine
  abbrev EndsWell :
      RunWorkflowInput F H
      → List (Phase F H)
      → Snapshot S
      → Engine F H
      → WorkflowResult S × Engine F H
      → Type 0
  EndsWell i phases s e (done final, e') =
      (reached : Snapshot S) × (left : Engine F H) × Passed F H i phases s e reached left
      × (final ≡ with_completed_workflow reached i.workflow.name)
      × (ctx : ActionContext H) × (e'
          ≡ run_late_hook F H i.workflow.hooks.after ctx (snapshot final) left)
  EndsWell i phases s e (waiting s' phase reason, e') =
      HaltsAt F H i phases s e phase (blocked s' reason) e'
      × HasLatest F H s'.task_id e'.store (λ c.
        (c.state.status ≡ paused)
        × (c.state.current_phase ≡ some phase)
        × ((at : ℕ) × (c.state.current_action_index ≡ some at)))
  EndsWell i phases s e (stopped s' none reason, e') = ⊥
  EndsWell i phases s e (stopped s' (some phase) reason, e') =
      (action : Option String) × (index : Option ℕ) × HaltsAt F H i phases s e phase
        (failed s' action index reason) e'

  -- the `before` hook of the workflow goes well, and leaves the engine `begun`
  abbrev pub HasBegun : RunWorkflowInput F H → Engine F H → Engine F H → Type 0
  HasBegun i e begun =
      (ctx : ActionContext H) × (w : World) × (run_hook F H i.workflow.hooks.before ctx
          (record e { world = w })
        ≡ (ok tt, begun))

  -- what holds of the result of the workflow: without a phase that failed it never began
  abbrev pub IsEnded : RunWorkflowInput F H → Engine F H → WorkflowResult S → Engine F H → Type 0
  IsEnded i e (stopped s none reason) e' =
      (s ≡ i.state)
      × ((failure : Reason) × (reason ≡ before_hook_failed failure))
      × IsSameButDesk F H e.store e'.store
  IsEnded i e result e' =
      (begun : Engine F H) × HasBegun i e begun
      × EndsWell i i.workflow.phases (record i.state { current_workflow = some i.workflow.name })
          begun (result, e')

  EndsWell-skips :
      (i : RunWorkflowInput F H) (p : Phase F H) (rest : List (Phase F H)) (s : Snapshot S)
      (e : Engine F H) (out : WorkflowResult S × Engine F H)
      → was_completed F H i p ≡ true
      → EndsWell i rest s e out
      → EndsWell i (p ∷ rest) s e out
  EndsWell-skips i p rest s e (done f, e') old (r, l, h, final, ctx, told) =
      (r, l, skips old h, final, ctx, told)
  EndsWell-skips i p rest s e (waiting s' phase reason, e') old (h, k) =
      (HaltsAt-skips F H i p rest s e phase (blocked s' reason) e' old h, k)
  EndsWell-skips i p rest s e (stopped s' none reason, e') old h = h
  EndsWell-skips i p rest s e (stopped s' (some phase) reason, e') old (action, index, h) =
      (action, index, HaltsAt-skips F H i p rest s e phase (failed s' action index reason) e' old h)

  EndsWell-completes :
      (i : RunWorkflowInput F H) (p : Phase F H) (rest : List (Phase F H)) (s s1 : Snapshot S)
      (e e1 : Engine F H) (out : WorkflowResult S × Engine F H)
      → was_completed F H i p ≡ false
      → outcome F H i p s e ≡ (completed s1, e1)
      → EndsWell i rest s1 e1 out
      → EndsWell i (p ∷ rest) s e out
  EndsWell-completes i p rest s s1 e e1 (done f, e') fresh ran (r, l, h, final, ctx, told) =
      (r, l, completes fresh ran h, final, ctx, told)
  EndsWell-completes i p rest s s1 e e1 (waiting s' phase reason, e') fresh ran (h, k) =
      (HaltsAt-completes F H i p rest s s1 e e1 phase (blocked s' reason) e' fresh ran h, k)
  EndsWell-completes i p rest s s1 e e1 (stopped s' none reason, e') fresh ran h = h
  EndsWell-completes i p rest s s1 e e1 (stopped s' (some phase) reason, e') fresh ran
        (action, index, h) =
      (
        action,
        index,
        HaltsAt-completes F H i p rest s s1 e e1 phase (failed s' action index reason) e' fresh ran
            h,
      )

  HaltsAt-here :
      (i : RunWorkflowInput F H) (ctx : ActionContext H) (p : Phase F H) (rest : List (Phase F H))
      (s : Snapshot S) (e : Engine F H) (r : PhaseResult S) (left : Engine F H) (reason : Reason)
      (w : WorkflowResult S)
      → was_completed F H i p ≡ false
      → outcome F H i p s e ≡ (r, left)
      → HaltsAt F H i (p ∷ rest) s e p.name r (RunWorkflow.halt F H i ctx reason w left).1
  unfolding RunWorkflow.halt run_late_hook
  HaltsAt-here i ctx p rest s e r left reason w fresh ran = record {
    before = [];
    at = p;
    after = rest;
    there = refl;
    named = refl;
    new = fresh;
    reached = s;
    reached_engine = e;
    left = left;
    passed = none_left;
    stops = ran;
    told = (ctx, reason, refl);
  }

  after_phase :
      (i : RunWorkflowInput F H) (ctx : ActionContext H) (p : Phase F H) (rest : List (Phase F H))
      (s : Snapshot S) (e : Engine F H) (out : PhaseResult S × Engine F H)
      → was_completed F H i p ≡ false
      → outcome F H i p s e ≡ out
      → IsRecorded F H p.name out.0 out.1
      → ((s' : Snapshot S) (e' : Engine F H)
          → EndsWell i rest s' e' (RunWorkflow.run_phases F H rest i ctx s' e'))
      → EndsWell i (p ∷ rest) s e (elim out.0 [
        | completed s' ↦ RunWorkflow.run_phases F H rest i ctx s' out.1
        | blocked s' reason ↦ RunWorkflow.halt F H i ctx reason (waiting s' p.name reason) out.1
        | failed s' action index reason ↦
            RunWorkflow.halt F H i ctx reason (stopped s' (some p.name) reason) out.1
      ])
  unfolding RunWorkflow.halt
  after_phase i ctx p rest s e (completed s1, e1) h ran k more =
      EndsWell-completes i p rest s s1 e e1 (RunWorkflow.run_phases F H rest i ctx s1 e1) h ran
        (more s1 e1)
  after_phase i ctx p rest s e (blocked s1 reason, e1) h ran k more = (
    HaltsAt-here i ctx p rest s e (blocked s1 reason) e1 reason (waiting s1 p.name reason) h ran,
    HasLatest-run_late_hook F H i.workflow.hooks.on_error ctx (error reason) e1 s1.task_id _ k,
  )
  after_phase i ctx p rest s e (failed s1 action index reason, e1) h ran k more = (
    action,
    index,
    HaltsAt-here i ctx p rest s e (failed s1 action index reason) e1 reason
        (stopped s1 (some p.name) reason) h ran,
  )

  run_phases-EndsWell :
      (phases : List (Phase F H)) (i : RunWorkflowInput F H) (ctx : ActionContext H)
      (s : Snapshot S) (e : Engine F H)
      → EndsWell i phases s e (RunWorkflow.run_phases F H phases i ctx s e)
  unfolding RunWorkflow.run_phases run_late_hook
  run_phases-EndsWell [] i ctx s e = (s, e, none_left, refl, ctx, refl)
  run_phases-EndsWell (p ∷ rest) i ctx s e = elim (Bool-cases (was_completed F H i p)) [
    | inl skipped ↦
        rw (skipped, RunWorkflow.run_phases)
          (EndsWell-skips i p rest s e (RunWorkflow.run_phases F H rest i ctx s e) skipped
            (run_phases-EndsWell rest i ctx s e))
    | inr runs ↦
        let input = RunWorkflow.phase_input F H i p s in
        rw (runs, RunWorkflow.run_phases)
          (after_phase i ctx p rest s e (outcome F H i p s e) runs refl
            (run_phase_supervised-IsRecorded F H input e)
            (λ s' e'. run_phases-EndsWell rest i ctx s' e'))
  ]

  EndsWell-IsEnded :
      (i : RunWorkflowInput F H) (e begun : Engine F H) (out : WorkflowResult S × Engine F H)
      → HasBegun i e begun
      → EndsWell i i.workflow.phases
          (record i.state { current_workflow = some i.workflow.name })
          begun
          out
      → IsEnded i e out.0 out.1
  EndsWell-IsEnded i e begun (done s, e') same h = (begun, same, h)
  EndsWell-IsEnded i e begun (waiting s phase reason, e') same h = (begun, same, h)
  EndsWell-IsEnded i e begun (stopped s none reason, e') same h = absurd h
  EndsWell-IsEnded i e begun (stopped s (some phase) reason, e') same h = (begun, same, h)

  before_hook_same :
      (i : RunWorkflowInput F H) (ctx : ActionContext H) (w : World) (e : Engine F H)
      → IsSameButDesk F H e.store
          (run_hook F H i.workflow.hooks.before ctx (record e { world = w })).1.store
  unfolding run_hook
  before_hook_same i ctx w e = refl

  begin-IsEnded :
      (ran : Result Reason (Unit {0}) × Engine F H) (i : RunWorkflowInput F H)
      (ctx : ActionContext H) (w : World) (e : Engine F H)
      → run_hook F H i.workflow.hooks.before ctx (record e { world = w }) ≡ ran
      → let (result, e') = RunWorkflow.begin F H ran.0 i ctx ran.1 in IsEnded i e result e'
  unfolding RunWorkflow.begin
  begin-IsEnded (err reason, e1) i ctx w e h = (
    refl,
    (reason, refl),
    subst (λ (r : Result Reason (Unit {0}) × Engine F H). IsSameButDesk F H e.store r.1.store) h
        (before_hook_same i ctx w e),
  )
  begin-IsEnded (ok u, e1) i ctx w e h =
      let s : Snapshot S = record i.state { current_workflow = some i.workflow.name } in
      EndsWell-IsEnded i e e1 (RunWorkflow.run_phases F H i.workflow.phases i ctx s e1) (ctx, w, h)
        (run_phases-EndsWell i.workflow.phases i ctx s e1)

  -- A workflow whose `before` hook goes well passes its phases in order, from the engine that the hook
  -- left: each was completed before and is skipped, or it is run from where the one before it ended and is
  -- completed. Where all are passed the workflow is done, and is listed as completed. Else it waits or
  -- fails in the first phase whose run was blocked or failed, which was not completed before, and no phase
  -- after that one is run. After either, one hook is told of the end and nothing else is done. Where it
  -- waits, the latest checkpoint of its task is paused in that phase, at an action. Where the `before`
  -- hook fails the workflow fails in no phase, with the state as it was, and the store too but for the
  -- messages, memories and approval requests.
  pub run_workflow-IsEnded :
      (i : RunWorkflowInput F H) (e : Engine F H)
      → let (result, e') = RunWorkflow.run_workflow F H i e in IsEnded i e result e'
  unfolding RunWorkflow.run_workflow
  run_workflow-IsEnded i e =
      let (execution_id, w) = fresh_id "exc_" e.world in
      let ctx = RunWorkflow.workflow_context F H i execution_id in
      begin-IsEnded (run_hook F H i.workflow.hooks.before ctx (record e { world = w })) i ctx w e
        refl
