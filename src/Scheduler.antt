-- ===== src/Scheduler.antt =====
-- packages/delta/src/engine/scheduler.ts, the budgets of delegated children: `handleDelegate` reserves the
-- budget that it grants, `settle` refunds what the child left of it. A child that runs is known by its
-- position among the runners.
pub mod Ledger
pub mod Runner
pub mod Run
pub mod Loop
pub mod Driver
use delta_agents.Common.{ℕ, zero, suc, Option, none, some, List, [], ◌∷◌, get_elem?, or_else}
use delta_agents.Cost.{Cost, add_costs, remaining_cost}
use delta_agents.Supervision.{enforce_subtask_scope}

-- the parent's budget and spend, and the budgets granted to the children that have not settled
pub record Parent : Type 0 where
  pub budget : Cost
  pub spent : Cost
  pub children : List Cost

pub data Event : Type 0 where
  delegated : (requested : Option Cost) → Event
  settled : (child : ℕ) (child_spent : Cost) → Event

abbrev pub remove_at : List Cost → ℕ → List Cost
remove_at [] i = []
remove_at (c ∷ cs) zero = cs
remove_at (c ∷ cs) (suc i) = c ∷ remove_at cs i

-- the part of `handleDelegate` that scopes and reserves; a delegation may name no budget
pub delegate : Option Cost → Parent → Parent
delegate requested p =
    let asked = or_else requested (remaining_cost p.budget p.spent) in
    let granted = enforce_subtask_scope asked p.budget p.spent in
    record p { spent = add_costs p.spent granted; children = granted ∷ p.children }

refund : Option Cost → ℕ → Cost → Parent → Parent
refund none child child_spent p = p
refund (some granted) child child_spent p = record p {
  spent = remaining_cost p.spent (remaining_cost granted child_spent);
  children = remove_at p.children child;
}

-- the part of `settle` that refunds
pub settle : ℕ → Cost → Parent → Parent
unfolding refund
settle child child_spent p = refund (get_elem? p.children child) child child_spent p

pub run_event : Event → Parent → Parent
unfolding delegate settle
run_event (delegated requested) p = delegate requested p
run_event (settled child child_spent) p = settle child child_spent p

pub run_events : List Event → Parent → Parent
unfolding run_event
run_events [] p = p
run_events (e ∷ es) p = run_events es (run_event e p)
