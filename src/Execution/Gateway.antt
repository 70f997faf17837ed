-- ===== src/Execution/Gateway.antt =====
-- What the execution gateway promises (execution/execution-gateway.ts).
use delta_agents.Common.{
  String, ◌≡◌, refl, ap, ◌∙◌, ◌⊎◌, ◌-◌, subst, ◌↔◌, inl, inr, Bool, true, false, none, some, Result,
  ok, err, arith, ◌==◌, Bool-cases, if◌then◌else◌,
}
use delta_agents.Common.Dict
use delta_agents.Common.Dict.{get-put}
use delta_agents.Cost.{Cost, zero_cost, add_costs}
use delta_agents.Governance.{StepSignals, update_risk}
use delta_agents.Scores.{Scores}
use delta_agents.Types.{approved, running}
use delta_agents.State.{
  LegalityResult, legal, illegal, check_legality, add_once, with_completed_action, with_spent,
}
use delta_agents.State.Legality.{IsLegal, check_legality_iff}
use delta_agents.Store
use delta_agents.Store.{Store, desk_of, with_desk, save_execution, update_execution}
use delta_agents.Store.Laws.{saved_and_updated_between}
use delta_agents.Host.{Host, Reason, before_hook_failed}
use delta_agents.Oversight
use delta_agents.Execution.{
  Engine, run_hook, GatewayInput, GatewaySuccess, is_approved, legality_gate, schema_gate, gates,
  context, final_status, succeeded, actual_cost, signals, update_snapshot, perform, run_fn,
  teardown, admitted, gated, run_gateway,
}

module _ (F : Scores) (H : Host) where
  open F use {S}
  open H use {World, Data, Value, now, fresh_id}

  -- The three gates that no action passes by: its schema accepts the input, it is legal in the
  -- snapshot, and where it requires approval it is approved.
  pub record IsAdmissible (i : GatewayInput F H) (d : Data) : Type 0 where
    pub accepted : i.action.schema i.raw_input ≡ ok d
    pub lawful : IsLegal i.action.spec i.state
    pub sanctioned :
        Oversight.approval_required i.action.spec.requires_approval ≡ true
        → i.approval_status ≡ approved

  legality_gate_to :
      (l : LegalityResult) (i : GatewayInput F H) (d d' : Data)
      → legality_gate F H l i d ≡ ok d'
      → (l ≡ legal)
        × (d ≡ d')
        × (Oversight.approval_required i.action.spec.requires_approval ≡ true
            → i.approval_status ≡ approved)
  unfolding legality_gate is_approved
  legality_gate_to legal i d d' h = (refl, ground arith, λ needed. ground arith)
  legality_gate_to (illegal reason) i d d' h = cc

  schema_gate_to :
      (r : Result String Data) (i : GatewayInput F H) (d : Data)
      → schema_gate F H r i ≡ ok d
      → (r ≡ ok d)
        × (check_legality i.action.spec i.state ≡ legal)
        × (Oversight.approval_required i.action.spec.requires_approval ≡ true
            → i.approval_status ≡ approved)
  unfolding schema_gate
  schema_gate_to (err message) i d h = cc
  schema_gate_to (ok d') i d h =
      let (lawful, same, sanctioned) =
        legality_gate_to (check_legality i.action.spec i.state) i d' d h in
      (ap ok same, lawful, sanctioned)

  gates_sound : (i : GatewayInput F H) (d : Data) → gates F H i ≡ ok d → IsAdmissible i d
  unfolding gates
  gates_sound i d h =
      let (accepted, lawful, sanctioned) = schema_gate_to (i.action.schema i.raw_input) i d h in
      record {
        accepted = accepted;
        lawful = (check_legality_iff i.action.spec i.state).0 lawful;
        sanctioned = sanctioned;
      }

  gates_complete : (i : GatewayInput F H) (d : Data) → IsAdmissible i d → gates F H i ≡ ok d
  unfolding gates
  gates_complete i d a =
      let lawful = (check_legality_iff i.action.spec i.state).1 a.lawful in
      rw a.accepted (
        rw lawful (elim (Bool-cases (Oversight.approval_required i.action.spec.requires_approval)) [
          | inl needed ↦ rw needed (rw (a.sanctioned needed) refl)
          | inr free ↦ rw free refl
        ]))

  -- The gates are passed exactly by the admissible inputs.
  pub gates_iff : (i : GatewayInput F H) (d : Data) → (gates F H i ≡ ok d) ↔ IsAdmissible i d
  gates_iff i d = (λ h. gates_sound i d h, λ a. gates_complete i d a)

  -- Only messages, memories and approval requests may differ, which a hook writes through its context.
  abbrev pub IsSameButDesk : Store S → Store S → Type 0
  IsSameButDesk s s' = s' ≡ with_desk (desk_of s') s

  -- What blocks an action: a gate, before anything is run, or the `before` hook of an admissible input.
  abbrev pub IsBlocked : GatewayInput F H → Reason → Store S → Store S → Type 0
  IsBlocked i reason s s' =
      (gates F H i ≡ err reason) × (s' ≡ s)
      ⊎ ((d : Data) × IsAdmissible i d)
        × ((failure : Reason) × (reason ≡ before_hook_failed failure))
        × IsSameButDesk s s'

  admitted-blocked :
      (b : Result Reason (Unit {0})) (i : GatewayInput F H) (d : Data) (id : String)
      (e : Engine F H) (reason : Reason)
      → (admitted F H b i d id e).0 ≡ err reason
      → ((failure : Reason) × (reason ≡ before_hook_failed failure))
        × ((admitted F H b i d id e).1.store ≡ e.store)
  unfolding admitted
  admitted-blocked (ok u) i d id e reason h = cc
  admitted-blocked (err r) i d id e reason h = ((r, ground (arith, h)), refl)

  gated-IsBlocked :
      (r : Result Reason Data) (i : GatewayInput F H) (e : Engine F H) (reason : Reason)
      → gates F H i ≡ r
      → (gated F H r i e).0 ≡ err reason
      → IsBlocked i reason e.store (gated F H r i e).1.store
  unfolding gated run_hook
  gated-IsBlocked (err r) i e reason at h = inl (at ∙ ground (arith, h), refl)
  gated-IsBlocked (ok d) i e reason at h =
      let (id, w) = fresh_id "exc_" e.world in
      let (before, e') =
        run_hook F H i.action.hooks.before (context F H i id) (record e { world = w }) in
      let (failed_hook, same) = admitted-blocked before i d id e' reason h in
      inr ((d, gates_sound i d at), failed_hook, rw same refl)

  -- An action is blocked by one of the three gates, with the store as it was, or, where the input is
  -- admissible, by its `before` hook, with the store as it was but for the messages, the memories and the
  -- approval requests, which the hook may have written through its context.
  pub run_gateway-IsBlocked :
      (i : GatewayInput F H) (e : Engine F H) (reason : Reason)
      → (run_gateway F H i e).0 ≡ err reason
      → IsBlocked i reason e.store (run_gateway F H i e).1.store
  unfolding run_gateway
  run_gateway-IsBlocked i e reason h = gated-IsBlocked (gates F H i) i e reason refl h

  -- What a step that ran leaves behind: its cost is charged once, its action counts as completed
  -- exactly if its function returned `Ok`, its execution is on record under the task and is settled,
  -- and status, budgets, escalation and prior of the task are as before.
  pub record IsPerformed (i : GatewayInput F H) (g : GatewaySuccess F H) (before after : Store S)
      : Type 0 where
    pub charged : g.updated_snapshot.spent ≡ add_costs i.state.spent g.execution.cost
    pub completes : g.updated_snapshot.completed_actions ≡ (
        if succeeded F H g.fn_result
        then add_once i.state.completed_actions i.action.spec.name
        else i.state.completed_actions)
    pub task : g.updated_snapshot.task_id ≡ i.state.task_id
    pub root : g.updated_snapshot.root_id ≡ i.state.root_id
    pub status : g.updated_snapshot.status ≡ i.state.status
    pub budget : g.updated_snapshot.budget ≡ i.state.budget
    pub escalated : g.updated_snapshot.risk.escalated ≡ i.state.risk.escalated
    pub prior : g.updated_snapshot.risk.static_risk ≡ i.state.risk.static_risk
    pub attributed : g.execution.task_id ≡ i.state.task_id
    pub settled : g.execution.status ≡ final_status F H (succeeded F H g.fn_result)
    pub stored : Dict.get after.executions g.execution.id ≡ some g.execution
    pub others :
        (id : String)
        → (g.execution.id == id) ≡ false
        → Dict.get after.executions id ≡ Dict.get before.executions id
    pub tasks : after.tasks ≡ before.tasks
    pub checkpoints : after.checkpoints_by_task ≡ before.checkpoints_by_task

  snapshot_effects :
      (i : GatewayInput F H) (cost : Cost) (good : Bool) (g : StepSignals F)
      → let s = update_snapshot F H i cost good g in
        (s.spent ≡ add_costs i.state.spent cost)
        × (s.completed_actions ≡ (
            if good
            then add_once i.state.completed_actions i.action.spec.name
            else i.state.completed_actions))
        × (s.task_id ≡ i.state.task_id)
        × (s.root_id ≡ i.state.root_id)
        × (s.status ≡ i.state.status)
        × (s.budget ≡ i.state.budget)
        × (s.risk.escalated ≡ i.state.risk.escalated)
        × (s.risk.static_risk ≡ i.state.risk.static_risk)
  unfolding update_snapshot with_completed_action with_spent update_risk
  snapshot_effects i cost true g = (refl, refl, refl, refl, refl, refl, refl, refl)
  snapshot_effects i cost false g = (refl, refl, refl, refl, refl, refl, refl, refl)

  perform-IsPerformed :
      (i : GatewayInput F H) (d : Data) (id : String) (e : Engine F H)
      → IsPerformed i (perform F H i d id e).0 e.store (perform F H i d id e).1.store
  unfolding perform run_fn teardown
  perform-IsPerformed i d id e =
      let (started_at, w1) = now e.world in
      let initial : Store.Execution = record {
        id = id;
        task_id = i.state.task_id;
        action = i.action.spec.name;
        started_at = started_at;
        ended_at = none;
        status = running;
        cost = zero_cost;
      } in
      let store1 = (save_execution initial e.store).1 in
      let ctx = context F H i id in
      let (fn_result, e2) = run_fn F H i.action.fn d ctx (record { store = store1; world = w1 }) in
      let (ended_at, w3) = now e2.world in
      let cost = actual_cost F H i.reasoning_cost (ended_at - started_at) in
      let good = succeeded F H fn_result in
      let (charged, completes, task, root, status, budget, escalated, prior) =
        snapshot_effects i cost good (signals F H i cost good) in
      let e3 = teardown F H fn_result i ctx (record e2 { world = w3 }) in
      let finish = λ (x : Store.Execution). record x {
        ended_at = some ended_at;
        status = final_status F H good;
        cost = cost;
      } in
      let (stored, others, tasks, checkpoints) =
        saved_and_updated_between e.store initial finish (desk_of e3.store) in
      record {
        charged = charged;
        completes = completes;
        task = task;
        root = root;
        status = status;
        budget = budget;
        escalated = escalated;
        prior = prior;
        attributed = refl;
        settled = refl;
        stored = stored;
        others = others;
        tasks = tasks;
        checkpoints = checkpoints;
      }

  admitted-IsPerformed :
      (b : Result Reason (Unit {0})) (i : GatewayInput F H) (d : Data) (id : String)
      (e : Engine F H) (g : GatewaySuccess F H)
      → (admitted F H b i d id e).0 ≡ ok g
      → IsPerformed i g e.store (admitted F H b i d id e).1.store
  unfolding admitted
  admitted-IsPerformed (err r) i d id e g h = cc
  admitted-IsPerformed (ok u) i d id e g h =
      subst (λ x. IsPerformed i x e.store (perform F H i d id e).1.store) (cc)
        (perform-IsPerformed i d id e)

  gated-IsPerformed :
      (r : Result Reason Data) (i : GatewayInput F H) (e : Engine F H) (g : GatewaySuccess F H)
      → (gated F H r i e).0 ≡ ok g
      → ((d : Data) × (r ≡ ok d)) × IsPerformed i g e.store (gated F H r i e).1.store
  unfolding gated run_hook
  gated-IsPerformed (err x) i e g h = cc
  gated-IsPerformed (ok d) i e g h =
      let (id, w) = fresh_id "exc_" e.world in
      let (before, e') =
        run_hook F H i.action.hooks.before (context F H i id) (record e { world = w }) in
      let p = admitted-IsPerformed before i d id e' g h in
      (
        (d, refl),
        record {
          charged = p.charged;
          completes = p.completes;
          task = p.task;
          root = p.root;
          status = p.status;
          budget = p.budget;
          escalated = p.escalated;
          prior = p.prior;
          attributed = p.attributed;
          settled = p.settled;
          stored = p.stored;
          others = p.others;
          tasks = p.tasks;
          checkpoints = p.checkpoints;
        },
      )

  -- A step that the gateway reports as run was admissible, charges its cost once, completes its action
  -- exactly if its function returned Ok, leaves a settled execution of the task on record, and changes
  -- neither status, budget, escalation and prior of the snapshot nor the tasks and checkpoints of the
  -- store.
  pub run_gateway-IsPerformed :
      (i : GatewayInput F H) (e : Engine F H) (g : GatewaySuccess F H)
      → (run_gateway F H i e).0 ≡ ok g
      → ((d : Data) × IsAdmissible i d) × IsPerformed i g e.store (run_gateway F H i e).1.store
  unfolding run_gateway
  run_gateway-IsPerformed i e g h =
      let ((d, passed), performed) = gated-IsPerformed (gates F H i) i e g h in
      ((d, gates_sound i d passed), performed)
