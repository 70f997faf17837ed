-- ===== src/Tests/Parts.antt =====
-- The theorems on costs, scores, legality and the transitions of a snapshot, at concrete inputs.
use delta_agents.Common.{◌≡◌, refl, ◌↔◌, true, leb}
use delta_agents.Cost.{is_over_budget, remaining_cost}
use delta_agents.Cost.Laws.{IsWithin, is_over_budget_iff}
use delta_agents.Scores.Fixed.{fixed, fixed-laws}
use delta_agents.Governance.{surprise, update_trust, update_risk}
use delta_agents.Governance.Bounds.{InUnit, Moves, update_trust-InUnit, update_risk_bounds}
use delta_agents.State.{evaluate_prerequisites, legal, check_legality}
use delta_agents.State.Legality.{IsLegal, check_legality_iff}
use delta_agents.Tests.Data.{tokens_and_time, snap, spec, trusted, calm}

-- costs

five-IsWithin_ten : IsWithin (tokens_and_time 5 5) (tokens_and_time 10 10)
unfolding is_over_budget
five-IsWithin_ten = (is_over_budget_iff (tokens_and_time 5 5) (tokens_and_time 10 10)).0 refl

two-IsWithin_rest :
    IsWithin (tokens_and_time 2 2) (remaining_cost (tokens_and_time 10 10) (tokens_and_time 5 5))
unfolding is_over_budget remaining_cost
two-IsWithin_rest =
    (is_over_budget_iff (tokens_and_time 2 2)
        (remaining_cost (tokens_and_time 10 10) (tokens_and_time 5 5))).0
      refl

-- trust and risk

update_trust-InUnit_example :
    InUnit fixed fixed-laws (update_trust fixed trusted surprise 700).score
    × Moves fixed fixed-laws surprise trusted.score (update_trust fixed trusted surprise 700).score
update_trust-InUnit_example =
    update_trust-InUnit fixed fixed-laws trusted surprise 700
      (record { lower = refl; upper = refl })

update_risk_bounds_example :
    let r =
      update_risk fixed calm
        (record { friction_signal = 3000; surprise_magnitude = 900; recent_failure_rate = 500 }) in
    (leb calm.static_risk r.current_risk ≡ true)
    × (leb r.current_risk 1000 ≡ true)
    × (leb r.predicted_risk 1000 ≡ true)
    × (r.static_risk ≡ calm.static_risk)
    × (r.escalated ≡ calm.escalated)
update_risk_bounds_example =
    update_risk_bounds fixed fixed-laws calm
      (record { friction_signal = 3000; surprise_magnitude = 900; recent_failure_rate = 500 }) refl

-- legality

check_legality_iff_example :
    (check_legality (spec "refund") snap ≡ legal) ↔ IsLegal (spec "refund") snap
check_legality_iff_example = check_legality_iff (spec "refund") snap

refund-IsLegal : IsLegal (spec "refund") snap
unfolding check_legality is_over_budget evaluate_prerequisites
refund-IsLegal = (check_legality_iff (spec "refund") snap).0 refl
