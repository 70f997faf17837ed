-- ===== src/Workflow/Extends.antt =====
-- What a task keeps while its phase runs: who it is, its budget and its status stay, the actions that
-- are completed stay completed, and what is spent does not go down.
use delta_agents.Common.{
  ◌≤◌, String, ◌≡◌, refl, ◌∙◌, sym, ap, subst, Bool, true, false, Option, arith, List, includes,
  if◌then◌else◌,
}
use delta_agents.Cost.{Cost, add_costs}
use delta_agents.Types.{RiskState}
use delta_agents.Scores.{Scores}
use delta_agents.State.{Snapshot, Guidance, add_once}
use delta_agents.State.Transitions.{includes-add_once}
use delta_agents.Store.{Store}
use delta_agents.Host.{Host}
use delta_agents.Execution.{GatewayInput, GatewaySuccess, succeeded}
use delta_agents.Execution.Gateway.{IsPerformed}

pub record Extends {S : Type 0} (s s' : Snapshot S) : Type 0 where
  pub task : s'.task_id ≡ s.task_id
  pub root : s'.root_id ≡ s.root_id
  pub status : s'.status ≡ s.status
  pub budget : s'.budget ≡ s.budget
  pub completed :
      (a : String) → includes s.completed_actions a ≡ true → includes s'.completed_actions a ≡ true
  pub tokens : s.spent.tokens ≤ s'.spent.tokens
  pub duration : s.spent.duration_ms ≤ s'.spent.duration_ms

module _ {S : Type 0} where
  pub Extends-refl : (s : Snapshot S) → Extends s s
  Extends-refl s = record {
    task = refl;
    root = refl;
    status = refl;
    budget = refl;
    completed = λ a h. h;
    tokens = omega arith;
    duration = omega arith;
  }

  pub Extends-trans : (s t u : Snapshot S) → Extends s t → Extends t u → Extends s u
  Extends-trans s t u x y = record {
    task = y.task ∙ x.task;
    root = y.root ∙ x.root;
    status = y.status ∙ x.status;
    budget = y.budget ∙ x.budget;
    completed = λ a h. y.completed a (x.completed a h);
    tokens = omega (arith, x.tokens, y.tokens);
    duration = omega (arith, x.duration, y.duration);
  }

  -- the parts of a snapshot that a phase may change by itself
  pub Extends-with :
      (s : Snapshot S) (risk : RiskState S) (guidance : Option (List (Guidance S)))
      (completed_phases : Option (List String)) (current_phase : Option String)
      → Extends s (record s {
        risk = risk;
        guidance = guidance;
        completed_phases = completed_phases;
        current_phase = current_phase;
      })
  Extends-with s risk guidance completed_phases current_phase = record {
    task = refl;
    root = refl;
    status = refl;
    budget = refl;
    completed = λ a h. h;
    tokens = omega arith;
    duration = omega arith;
  }

completes_more :
    (b : Bool) (xs ys : List String) (x a : String)
    → ys ≡ (if b then add_once xs x else xs)
    → includes xs a ≡ true
    → includes ys a ≡ true
completes_more true xs ys x a e h =
    ap (λ zs. includes zs a) e ∙ ground (arith, includes-add_once xs x a)
completes_more false xs ys x a e h = ap (λ zs. includes zs a) e ∙ h

spends_more :
    (before after cost : Cost)
    → after ≡ add_costs before cost
    → (before.tokens ≤ after.tokens) × (before.duration_ms ≤ after.duration_ms)
unfolding add_costs
spends_more before after cost e =
    subst (λ (c : Cost). (before.tokens ≤ c.tokens) × (before.duration_ms ≤ c.duration_ms)) (sym e)
      (omega arith, omega arith)

pub IsPerformed-Extends :
    (F : Scores) (H : Host) (i : GatewayInput F H) (g : GatewaySuccess F H)
    (before after : Store F.S)
    → IsPerformed F H i g before after
    → Extends i.state g.updated_snapshot
IsPerformed-Extends F H i g before after p =
    let (tokens, duration) =
      spends_more i.state.spent g.updated_snapshot.spent g.execution.cost p.charged in
    record {
      task = p.task;
      root = p.root;
      status = p.status;
      budget = p.budget;
      completed = λ a h.
          completes_more (succeeded F H g.fn_result) i.state.completed_actions
            g.updated_snapshot.completed_actions i.action.spec.name a p.completes h;
      tokens = tokens;
      duration = duration;
    }
