-- ===== src/Cost/Laws.antt =====
-- The laws of sums of costs, and of budgets (packages/delta/src/shared/cost.ts).
use delta_agents.Common.{ℕ, ◌≤◌, ◌↔◌, ◌≡◌, true, false, Option, none, some, arith, or_else}
use native.Mathlib.Nat.{add_assoc}
use delta_agents.Cost.{
  Cost, Money, ContentCost, add_axis, add_money, add_content, add_costs, is_over_budget,
  remaining_cost, money_value,
}

add_axis_assoc : (a b c : Option ℕ) → add_axis (add_axis a b) c ≡ add_axis a (add_axis b c)
unfolding add_axis
add_axis_assoc a b c = ground arith

add_money_assoc : (a b c : Option Money) → add_money (add_money a b) c ≡ add_money a (add_money b c)
unfolding add_money
add_money_assoc a b c = ground arith

add_content_assoc :
    (a b c : Option ContentCost) → add_content (add_content a b) c ≡ add_content a (add_content b c)
unfolding add_content
add_content_assoc a b c = ground arith

-- Adding costs is associative on every axis, so the total of a run does not depend on how its steps
-- are grouped.
pub add_costs_assoc : (a b c : Cost) → add_costs (add_costs a b) c ≡ add_costs a (add_costs b c)
unfolding add_costs
add_costs_assoc a b c = cc (
  add_assoc a.tokens b.tokens c.tokens,
  add_assoc a.duration_ms b.duration_ms c.duration_ms,
  add_axis_assoc a.memory b.memory c.memory,
  add_axis_assoc a.latency b.latency c.latency,
  add_money_assoc a.money b.money c.money,
  add_content_assoc a.content b.content c.content,
)

-- Spending more never brings a task back under its budget.
pub is_over_budget-add_costs :
    (spent more budget : Cost)
    → is_over_budget spent budget ≡ true
    → is_over_budget (add_costs spent more) budget ≡ true
unfolding is_over_budget add_costs
is_over_budget-add_costs spent more budget h = ground arith

-- What an optional limit allows.
abbrev AxisWithin : ℕ → Option ℕ → Type 0
AxisWithin spent none = Unit
AxisWithin spent (some limit) = spent ≤ limit

abbrev MoneyWithin : ℕ → Option Money → Type 0
MoneyWithin spent none = Unit
MoneyWithin spent (some limit) = spent ≤ limit.value

-- The spent cost fits the budget: on tokens and time always, on memory, latency and money where
-- the budget declares a limit.
pub record IsWithin (spent budget : Cost) : Type 0 where
  pub tokens : spent.tokens ≤ budget.tokens
  pub duration_ms : spent.duration_ms ≤ budget.duration_ms
  pub memory : AxisWithin (or_else spent.memory 0) budget.memory
  pub latency : AxisWithin (or_else spent.latency 0) budget.latency
  pub money : MoneyWithin (money_value spent.money) budget.money

-- The budget test answers false exactly when the cost fits the budget.
pub is_over_budget_iff :
    (spent budget : Cost) → (is_over_budget spent budget ≡ false) ↔ IsWithin spent budget
unfolding is_over_budget
is_over_budget_iff spent budget = (λ h. ground arith, λ h. ground arith)

-- What is spent within the remaining headroom of a task keeps the task within its budget.
pub remaining_cost-IsWithin :
    (total spent more : Cost)
    → IsWithin spent total
    → IsWithin more (remaining_cost total spent)
    → IsWithin (add_costs spent more) total
unfolding remaining_cost add_costs
remaining_cost-IsWithin total spent more h k = ground arith
