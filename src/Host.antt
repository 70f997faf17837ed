-- ===== src/Host.antt =====
-- What the engine does not implement: the developer's functions (actions, hooks, guards, schemas), the
-- clock, the ids of nanoid and the skill files, over a world that they read and change.
-- A throw inside a developer's function is its `err`, as `safeTry` of slang-ts makes it.
use delta_agents.Common.{ℕ, String, Option, List, Result}
use delta_agents.Scores.{Scores}
use delta_agents.Types.{ActionSpec, EscalationTrigger, ApprovalStatus}
use delta_agents.Store.{Desk}
use delta_agents.State.{Snapshot, LegalityReason}

pub record Host : Type 1 where
  pub World : Type 0
  pub Input : Type 0  -- raw input of an action
  pub Data : Type 0  -- input that its schema has accepted
  pub Value : Type 0  -- what a function of the developer returns
  pub Extras : Type 0  -- goal, attachments, budget, storylines
  pub now : World → ℕ × World  -- milliseconds
  pub fresh_id : String → World → String × World
  pub load_skill : String → World → Option String × World
  pub pause : ℕ → World → World  -- the jittered backoff after a failed attempt

-- authoring/types.ts
pub record Skill : Type 0 where
  pub name : String
  pub description : String
  pub folder : String

pub data SkillRef : Type 0 where
  by_name : String → SkillRef
  inline : Skill → SkillRef

pub record AvailableSkill : Type 0 where
  pub name : String
  pub description : String
  pub content : String

-- Why a step, a phase or a workflow did not go on; the constructors stand for the error texts.
pub data Reason : Type 0 where
  user : String → Reason
  schema_invalid : String → Reason
  not_legal : LegalityReason → Reason
  approval_required : String → ApprovalStatus → Reason
  hook_failed : String → Reason
  before_hook_failed : Reason → Reason
  no_action_at : ℕ → Reason
  undeclared_success undeclared_failure : String → Reason
  unknown_skill : String → Reason
  skills_failed : String → Reason → Reason
  unknown_action : String → Reason
  step_limit : String → Reason
  escalated_by : EscalationTrigger → Reason
  escalated_phase : String → Reason → Reason
  aborted_subtree aborted_tree : String → Reason → Reason
  cascade_failed : String → Reason
  gave_up : String → ℕ → ℕ → Reason
  exhausted : String → ℕ → Reason → Reason
  no_error_message : Reason

pub record ActionContext (H : Host) : Type 0 where
  pub task_id : String
  pub execution_id : String
  pub agent_name : String
  pub phase : Option String
  pub workflow_name : Option String
  pub available_skills : Option (List AvailableSkill)
  pub extras : H.Extras

-- What an `after` or an `onError` hook receives beside the context.
pub data Payload (F : Scores) (H : Host) : Type 0 where
  value : H.Value → Payload F H
  snapshot : Snapshot F.S → Payload F H
  error : Reason → Payload F H

-- What a function of the developer reads and changes: the world, and the part of the store that
-- `ctx.communicate`, `ctx.remember` and `ctx.recall` reach.
pub record Outside (H : Host) : Type 0 where
  pub desk : Desk
  pub world : H.World

pub record Hooks (F : Scores) (H : Host) : Type 0 where
  pub before : Option (ActionContext H → Outside H → Result String H.Value × Outside H)
  pub after : Option (ActionContext H → Payload F H → Outside H → Result String H.Value × Outside H)
  pub on_error :
      Option (ActionContext H → Payload F H → Outside H → Result String H.Value × Outside H)

pub record Action (F : Scores) (H : Host) : Type 0 where
  pub spec : ActionSpec F.S
  pub schema : H.Input → Result String H.Data
  pub hooks : Hooks F H
  pub fn : H.Data → ActionContext H → Outside H → Result String H.Value × Outside H
  pub skills : Option (List SkillRef)
