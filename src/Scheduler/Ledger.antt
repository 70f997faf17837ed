-- ===== src/Scheduler/Ledger.antt =====
-- The account of a parent under any order of delegations and settlements (engine/scheduler.ts).
use delta_agents.Common.{ℕ, ◌+◌, ◌≤◌, min, ◌≡◌, Option, none, some, List, [], ◌∷◌, get_elem?}
use delta_agents.Cost.{Cost}
use delta_agents.Scheduler.{Parent, Event, delegated, settled, run_event, run_events}

-- what the children that have not settled hold, on one axis
abbrev pub reserved : (Cost → ℕ) → List Cost → ℕ
reserved axis [] = 0
reserved axis (c ∷ cs) = axis c + reserved axis cs

-- what a settlement leaves charged: the child's real spend, up to its grant
abbrev pub charge : (Cost → ℕ) → Option Cost → Cost → ℕ
charge axis none child_spent = 0
charge axis (some granted) child_spent = min (axis granted) (axis child_spent)

abbrev pub event_charge : (Cost → ℕ) → Event → Parent → ℕ
event_charge axis (delegated requested) p = 0
event_charge axis (settled child child_spent) p =
    charge axis (get_elem? p.children child) child_spent

pub charged : (Cost → ℕ) → List Event → Parent → ℕ
charged axis [] p = 0
charged axis (e ∷ es) p = event_charge axis e p + charged axis es (run_event e p)

abbrev pub tokens_of : Cost → ℕ
tokens_of c = c.tokens

abbrev pub duration_of : Cost → ℕ
duration_of c = c.duration_ms

-- the spend holds what is reserved, and is within the budget
pub record IsSound (axis : Cost → ℕ) (p : Parent) : Type 0 where
  pub holds : reserved axis p.children ≤ axis p.spent
  pub within : axis p.spent ≤ axis p.budget

abbrev Accounts : (Cost → ℕ) → Event → Parent → Type 0
Accounts axis e p =
    (axis (run_event e p).spent + reserved axis p.children
      ≡ axis p.spent + reserved axis (run_event e p).children + event_charge axis e p)
    × IsSound axis (run_event e p)

-- Over any sequence of events the spend grows by what is reserved more and by what is charged.
abbrev pub Balances : (Cost → ℕ) → List Event → Parent → Type 0
Balances axis es p =
    (axis (run_events es p).spent + reserved axis p.children
      ≡ axis p.spent + reserved axis (run_events es p).children + charged axis es p)
    × IsSound axis (run_events es p)
