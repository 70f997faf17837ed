-- ===== src/Workflow.antt =====
-- packages/delta/src/workflow: phases, branches and the next step. Children: the phase runner
-- (run-phase.ts), and supervision and the workflow runner (run-workflow.ts).
mod Examples
pub mod Routing
pub mod Extends
pub mod PhaseEnd
pub mod RunPhase
pub mod Retry
pub mod RunWorkflow
use delta_agents.Common.{
  ℕ, zero, suc, ◌+◌, String, Bool, true, false, Option, none, some, List, [], ◌∷◌, ◌==◌, get_elem?,
  length, leb, Result, ok, err, if◌then◌else◌,
}
use delta_agents.Common.Dict.{Dict}
use delta_agents.Scores.{Scores}
use delta_agents.Types.{SupervisionPolicy, ApprovalStatus}
use delta_agents.State.{Snapshot}
use delta_agents.Host.{
  Host, ActionContext, Hooks, Action, Skill, SkillRef, Reason, user, no_action_at,
  undeclared_success, undeclared_failure,
}

-- The outcome of the action that ran last in the phase, which a guard can see.
pub record LastOutcome : Type 0 where
  pub action : String
  pub succeeded : Bool
  pub error : Option String

pub record Branch (H : Host) : Type 0 where
  pub action : String
  pub on_success : Option String
  pub on_failure : Option String
  pub when : Option (ActionContext H → Option LastOutcome → Bool)

pub data ActionRef (H : Host) : Type 0 where
  plain : String → ActionRef H
  branch : Branch H → ActionRef H

pub record Phase (F : Scores) (H : Host) : Type 0 where
  pub name : String
  pub actions : List (ActionRef H)
  pub supervision : Option SupervisionPolicy
  pub hooks : Hooks F H
  pub skills : Option (List SkillRef)

pub record Workflow (F : Scores) (H : Host) : Type 0 where
  pub name : String
  pub phases : List (Phase F H)
  pub hooks : Hooks F H

-- types.ts
pub data NextStep : Type 0 where
  proceed : (next_index : ℕ) (via_jump : Bool) → NextStep
  end_success : NextStep
  end_failure : Reason → NextStep

pub data PhaseResult (S : Type 0) : Type 0 where
  completed : Snapshot S → PhaseResult S
  failed :
      (snapshot : Snapshot S) (failed_action : Option String) (failed_index : Option ℕ)
      (failed_reason : Reason)
      → PhaseResult S
  blocked : Snapshot S → Reason → PhaseResult S

pub record RunPhaseInput (F : Scores) (H : Host) : Type 0 where
  pub phase : Phase F H
  pub action_registry : Dict (Action F H)
  pub state : Snapshot F.S
  pub get_approval_status : String → ApprovalStatus
  pub input_for : String → H.Input
  pub extras : H.Extras
  pub workflow_name : Option String
  pub start_index : Option ℕ
  pub start_via_jump : Option Bool
  pub agent_skills : Option (List Skill)
  pub guidance_enabled : Bool

abbrev shift : Option ℕ → Option ℕ
shift none = none
shift (some i) = some (suc i)

abbrev jump : Option ℕ → Reason → NextStep
jump none undeclared = end_failure undeclared
jump (some index) undeclared = proceed index true

after_plain : ℕ → ℕ → Result Reason (Unit {0}) → NextStep
after_plain count index (err reason) = end_failure reason
after_plain count index (ok u) =
    if leb count (index + 1) then end_success else proceed (index + 1) false

module _ {H : Host} where
  abbrev pub ref_name : ActionRef H → String
  ref_name (plain name) = name
  ref_name (branch b) = b.action

  -- resolve-next.ts; `findIndex` gives -1 for `none`
  pub find_action_index : List (ActionRef H) → String → Option ℕ
  find_action_index [] name = none
  find_action_index (r ∷ rest) name =
      let later = shift (find_action_index rest name) in
      if ref_name r == name then some 0 else later

  after_branch : List (ActionRef H) → Branch H → Result Reason (Unit {0}) → NextStep
  after_branch actions b (ok u) = elim b.on_success [
    | none ↦ end_success
    | some target ↦ jump (find_action_index actions target) (undeclared_success target)
  ]
  after_branch actions b (err reason) = elim b.on_failure [
    | none ↦ end_failure reason
    | some target ↦ jump (find_action_index actions target) (undeclared_failure target)
  ]

  next_of : Option (ActionRef H) → List (ActionRef H) → ℕ → Result Reason (Unit {0}) → NextStep
  next_of none actions index result = end_failure (no_action_at index)
  next_of (some (plain name)) actions index result = after_plain (length actions) index result
  next_of (some (branch b)) actions index result = after_branch actions b result

  pub resolve_next_step : List (ActionRef H) → ℕ → Result Reason (Unit {0}) → NextStep
  unfolding next_of after_plain after_branch
  resolve_next_step actions index result = next_of (get_elem? actions index) actions index result
