-- ===== src/Workflow/RunWorkflow/Passing.antt =====
-- The phases that a workflow passes, and the phase at which it halts (workflow/run-workflow.ts).
use delta_agents.Common.{String, ◌≡◌, ap, ◌++◌, Bool, true, false, List, [], ◌∷◌, or_else, includes}
use delta_agents.Scores.{Scores}
use delta_agents.State.{Snapshot}
use delta_agents.Host.{Host, ActionContext, Reason, error}
use delta_agents.Execution.{Engine, run_late_hook}
use delta_agents.Workflow.{Phase, PhaseResult, completed}
use delta_agents.Workflow.RunWorkflow
use delta_agents.Workflow.RunWorkflow.{RunWorkflowInput, WorkflowResult, done, stopped, waiting}

module _ (F : Scores) (H : Host) where
  open F use {S}
  open H use {World, fresh_id}

  -- a phase was completed before
  abbrev pub was_completed : RunWorkflowInput F H → Phase F H → Bool
  was_completed i p = includes (or_else i.state.completed_phases []) p.name

  -- what the supervised run of a phase comes to, from a snapshot and an engine
  abbrev pub outcome :
      RunWorkflowInput F H → Phase F H → Snapshot S → Engine F H → PhaseResult S × Engine F H
  outcome i p s e = RunWorkflow.run_phase_supervised F H (RunWorkflow.phase_input F H i p s) e

  -- The phases are passed one after another, from a snapshot and an engine to a snapshot and an engine:
  -- each was completed before and is skipped, or it is run from where the one before it ended and is
  -- completed.
  pub data Passed (i : RunWorkflowInput F H)
      : List (Phase F H) → Snapshot S → Engine F H → Snapshot S → Engine F H → Type 0 where
    none_left : {s : Snapshot S} {e : Engine F H} → Passed i [] s e s e
    skips :
        {p : Phase F H} {ps : List (Phase F H)} {s s' : Snapshot S} {e e' : Engine F H}
        → was_completed i p ≡ true
        → Passed i ps s e s' e'
        → Passed i (p ∷ ps) s e s' e'
    completes :
        {p : Phase F H} {ps : List (Phase F H)} {s s1 s' : Snapshot S} {e e1 e' : Engine F H}
        → was_completed i p ≡ false
        → outcome i p s e ≡ (completed s1, e1)
        → Passed i ps s1 e1 s' e'
        → Passed i (p ∷ ps) s e s' e'

  -- The phases before `p` are passed, `p` is run next with the result `r`, and none after it is run: the
  -- engine at the end is what the `onError` hook, which is told of it, makes of the one that `p` left.
  pub record HaltsAt (i : RunWorkflowInput F H) (phases : List (Phase F H)) (s : Snapshot S)
      (e : Engine F H) (name : String) (r : PhaseResult S) (e' : Engine F H) : Type 0 where
    pub before : List (Phase F H)
    pub at : Phase F H
    pub after : List (Phase F H)
    pub there : phases ≡ before ++ at ∷ after
    pub named : at.name ≡ name
    pub new : was_completed i at ≡ false
    pub reached : Snapshot S
    pub reached_engine : Engine F H
    pub left : Engine F H
    pub passed : Passed i before s e reached reached_engine
    pub stops : outcome i at reached reached_engine ≡ (r, left)
    pub told :
        (ctx : ActionContext H) × (reason : Reason) × (e'
          ≡ run_late_hook F H i.workflow.hooks.on_error ctx (error reason) left)

  pub HaltsAt-skips :
      (i : RunWorkflowInput F H) (p : Phase F H) (rest : List (Phase F H)) (s : Snapshot S)
      (e : Engine F H) (name : String) (r : PhaseResult S) (e' : Engine F H)
      → was_completed i p ≡ true
      → HaltsAt i rest s e name r e'
      → HaltsAt i (p ∷ rest) s e name r e'
  HaltsAt-skips i p rest s e name r e' old h = record {
    before = p ∷ h.before;
    at = h.at;
    after = h.after;
    there = ap (λ ps. p ∷ ps) h.there;
    named = h.named;
    new = h.new;
    reached = h.reached;
    reached_engine = h.reached_engine;
    left = h.left;
    passed = skips old h.passed;
    stops = h.stops;
    told = h.told;
  }

  pub HaltsAt-completes :
      (i : RunWorkflowInput F H) (p : Phase F H) (rest : List (Phase F H)) (s s1 : Snapshot S)
      (e e1 : Engine F H) (name : String) (r : PhaseResult S) (e' : Engine F H)
      → was_completed i p ≡ false
      → outcome i p s e ≡ (completed s1, e1)
      → HaltsAt i rest s1 e1 name r e'
      → HaltsAt i (p ∷ rest) s e name r e'
  HaltsAt-completes i p rest s s1 e e1 name r e' fresh ran h = record {
    before = p ∷ h.before;
    at = h.at;
    after = h.after;
    there = ap (λ ps. p ∷ ps) h.there;
    named = h.named;
    new = h.new;
    reached = h.reached;
    reached_engine = h.reached_engine;
    left = h.left;
    passed = completes fresh ran h.passed;
    stops = h.stops;
    told = h.told;
  }
