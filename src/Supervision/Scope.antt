-- ===== src/Supervision/Scope.antt =====
-- What the scope of a subtask's budget promises, and what it leaves open (supervision/scope.ts).
use delta_agents.Common.{◌≤◌, ◌≡◌, true, false, arith}
use delta_agents.Cost.{Cost, is_over_budget, remaining_cost, add_costs}
use delta_agents.Supervision.{enforce_subtask_scope, is_within_parent_scope}

-- The budget that a subtask is given fits its parent's scope, and whatever the subtask spends within
-- it leaves a parent that was within its tokens and time still within both.
pub enforce_subtask_scope-IsWithin :
    (requested budget spent child : Cost)
    → spent.tokens ≤ budget.tokens
    → spent.duration_ms ≤ budget.duration_ms
    → is_over_budget child (enforce_subtask_scope requested budget spent) ≡ false
    → (is_within_parent_scope (enforce_subtask_scope requested budget spent) budget spent ≡ true)
      × ((add_costs spent child).tokens ≤ budget.tokens)
      × ((add_costs spent child).duration_ms ≤ budget.duration_ms)
unfolding enforce_subtask_scope is_within_parent_scope is_over_budget remaining_cost add_costs
enforce_subtask_scope-IsWithin requested budget spent child h k over =
    (ground arith, ground arith, ground arith)

-- The clamp drops the parent's limits on memory, latency and money: a subtask that keeps its tokens
-- and time is within the budget it was given whatever it spends on those three.
pub enforce_subtask_scope-unlimited :
    (requested budget spent child : Cost)
    → child.tokens ≤ (enforce_subtask_scope requested budget spent).tokens
    → child.duration_ms ≤ (enforce_subtask_scope requested budget spent).duration_ms
    → is_over_budget child (enforce_subtask_scope requested budget spent) ≡ false
unfolding enforce_subtask_scope is_over_budget remaining_cost
enforce_subtask_scope-unlimited requested budget spent child h k = ground arith
