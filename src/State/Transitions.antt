-- ===== src/State/Transitions.antt =====
-- What the transitions of a snapshot keep (state-space/task-state.ts).
use delta_agents.Common.{
  String, ◌≡◌, true, false, Option, none, some, List, [], ◌∷◌, arith, includes, includes-append,
  HasNoRepeats, HasNoRepeats-concat, or_else, ◌==◌, inl, inr, eq_iff, Bool-cases, if◌then◌else◌,
}
use delta_agents.Cost.{Cost, add_costs, is_over_budget}
use delta_agents.Cost.Laws.{is_over_budget_iff}
use delta_agents.Types.{ActionSpec, Prerequisites}
use delta_agents.State.{Snapshot, add_once, with_completed_action}
use delta_agents.State.Legality.{AllIncluded, Satisfied, IsLegal}

pub includes-add_once :
    (xs : List String) (x y : String)
    → includes (add_once xs x) y ≡ (if x == y then true else includes xs y)
unfolding add_once includes
includes-add_once xs x y = ground (arith, includes-append xs (x ∷ []) y, eq_iff x y)

pub add_once-HasNoRepeats :
    (xs : List String) (x : String) → HasNoRepeats xs → HasNoRepeats (add_once xs x)
unfolding add_once
add_once-HasNoRepeats xs x h = elim (Bool-cases (includes xs x)) [
  | inl p ↦ rw p h
  | inr q ↦ rw q (HasNoRepeats-concat xs x q h)
]

AllIncluded-add_once :
    (required done : List String) (x : String)
    → AllIncluded required done
    → AllIncluded required (add_once done x)
AllIncluded-add_once [] done x h = tt
AllIncluded-add_once (r ∷ rs) done x (p, h) =
    (ground (arith, includes-add_once done x r), AllIncluded-add_once rs done x h)

Satisfied-add_once :
    (p : Option Prerequisites) (actions workflows : List String) (x : String)
    → Satisfied p actions workflows
    → Satisfied p (add_once actions x) workflows
Satisfied-add_once none actions workflows x h = tt
Satisfied-add_once (some p) actions workflows x (h, k) =
    (AllIncluded-add_once (or_else p.actions []) actions x h, k)

module _ {S : Type 0} where
  -- Completing an action takes no other action's legality away, as long as its cost keeps the task
  -- within its budget.
  pub with_completed_action-IsLegal :
      (a : ActionSpec S) (s : Snapshot S) (name : String) (cost : Cost)
      → IsLegal a s
      → is_over_budget (add_costs s.spent cost) s.budget ≡ false
      → IsLegal a (with_completed_action s name cost)
  unfolding with_completed_action
  with_completed_action-IsLegal a s name cost l h = record {
    runs = l.runs;
    within = (is_over_budget_iff (add_costs s.spent cost) s.budget).0 h;
    parent = l.parent;
    overseen = l.overseen;
    satisfied =
        Satisfied-add_once a.prerequisites s.completed_actions s.completed_workflows name
          l.satisfied;
  }

  -- Completing an action records it, keeps what was recorded, and lists no action twice.
  pub with_completed_action-records :
      (s : Snapshot S) (name : String) (cost : Cost)
      → HasNoRepeats s.completed_actions
      → HasNoRepeats (with_completed_action s name cost).completed_actions
        × ((other : String)
            → includes (with_completed_action s name cost).completed_actions other
              ≡ (if name == other then true else includes s.completed_actions other))
  unfolding with_completed_action
  with_completed_action-records s name cost h = (
    add_once-HasNoRepeats s.completed_actions name h,
    λ other. includes-add_once s.completed_actions name other,
  )
