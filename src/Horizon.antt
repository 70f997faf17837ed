-- ===== src/Horizon.antt =====
-- packages/delta/src/governance/value.ts: the value of an action and the projection of a horizon. The
-- rounded product with a discount is a parameter, since the discounts are fractions.
pub mod Boundary
use mathlib.Core.Option
use delta_agents.Common.{
  ℕ, ◌+◌, String, Bool, true, false, Option, none, some, List, [], ◌∷◌, if◌then◌else◌,
}
use delta_agents.Cost.{Cost, zero_cost, add_costs}

pub record ActionValue : Type 0 where
  pub immediate_cost : Cost
  pub expected_future_cost : Cost
  pub total_value : ℕ

-- where a projection stops, and the action that retrieves external data there
pub record HorizonBoundary : Type 0 where
  pub stopped_at : ℕ
  pub action_name : String

pub record HorizonStep : Type 0 where
  pub action_name : String
  pub estimated_cost : Cost
  pub is_epistemic_boundary : Bool

pub record Projection : Type 0 where
  pub total_projected_cost : Cost
  pub steps_taken : ℕ
  pub boundary : Option HorizonBoundary

-- `discounted i amount` is the amount times the discount factor to the power `i`, rounded
module _ (discounted : ℕ → ℕ → ℕ) where
  unfoldable pub compute_action_value : Cost → Cost → ActionValue
  compute_action_value immediate future =
      let total = add_costs immediate (record zero_cost {
        tokens = discounted 1 future.tokens;
        duration_ms = discounted 1 future.duration_ms;
      }) in
      record {
        immediate_cost = immediate;
        expected_future_cost = future;
        total_value = total.tokens;
      }

  -- money and content are not projected
  unfoldable pub discounted_cost : ℕ → Cost → Cost
  discounted_cost i c = record zero_cost {
    tokens = discounted i c.tokens;
    duration_ms = discounted i c.duration_ms;
    memory = Option.map (discounted i) c.memory;
    latency = Option.map (discounted i) c.latency;
  }

  -- the loop, at step `i`, with what was accumulated and the steps that were taken
  unfoldable pub project_from : ℕ → Cost → ℕ → List HorizonStep → Projection
  project_from i accumulated taken [] = record {
    total_projected_cost = accumulated;
    steps_taken = taken;
    boundary = none;
  }
  project_from i accumulated taken (step ∷ rest) =
      let onward =
        project_from (i + 1) (add_costs accumulated (discounted_cost i step.estimated_cost))
          (taken + 1) rest in
      if step.is_epistemic_boundary
      then record {
        total_projected_cost = accumulated;
        steps_taken = taken;
        boundary = some (record { stopped_at = i; action_name = step.action_name });
      }
      else onward

  unfoldable pub project_horizon : List HorizonStep → Projection
  project_horizon steps = project_from 0 zero_cost 0 steps
