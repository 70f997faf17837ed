-- ===== src/Workflow/RunPhase/Routes.antt =====
-- What a phase is to leave behind, and that its ends and its routing do so (workflow/run-phase.ts).
use delta_agents.Common.{
  ◌<◌, ℕ, String, ◌≡◌, refl, ◌∙◌, Bool, true, Option, some, List, [], or_else, includes, Result, ok,
  err, eq_refl, Bool-cases, inl, inr, ◌&&◌,
}
use delta_agents.Scores.{Scores}
use delta_agents.Types.{paused}
use delta_agents.State.{Snapshot}
use delta_agents.State.Transitions.{includes-add_once}
use delta_agents.Store.{Store, Checkpoint, get_latest_checkpoint}
use delta_agents.Store.Laws.{get_latest_checkpoint-save_checkpoint}
use delta_agents.Host.{Host, Reason, ActionContext, Payload, Outside, snapshot}
use delta_agents.Execution.{Engine, run_late_hook}
use delta_agents.Workflow.{
  ActionRef, NextStep, proceed, end_success, end_failure, PhaseResult, completed, failed, blocked,
  resolve_next_step,
}
use delta_agents.Workflow.Extends.{Extends, Extends-with, Extends-trans}
use delta_agents.Workflow.PhaseEnd.{
  Cursor, PhaseRun, StepResult, finished, again, advance, checkpoint_of, write_checkpoint,
  complete_phase, fail, is_plain,
}
use delta_agents.Workflow.RunPhase

module _ (F : Scores) (H : Host) where
  open F use {S}
  open H use {World, Value, now, fresh_id}

  abbrev pub result_snapshot : PhaseResult S → Snapshot S
  result_snapshot (completed s) = s
  result_snapshot (failed s action index reason) = s
  result_snapshot (blocked s reason) = s

  -- the latest checkpoint of the task, for which `P` holds
  pub record HasLatest (task_id : String) (store : Store S) (P : Checkpoint S → Type 0)
      : Type 0 where
    pub checkpoint : Checkpoint S
    pub latest : get_latest_checkpoint task_id store ≡ some checkpoint
    pub holds : P checkpoint

  -- A completed phase is listed as completed, and the latest checkpoint of its task is the snapshot
  -- that it returns. A blocked one can be resumed: the latest checkpoint of its task is paused in this
  -- phase, at an action.
  abbrev pub IsRecorded : String → PhaseResult S → Engine F H → Type 0
  IsRecorded phase (completed s) e =
      (includes (or_else s.completed_phases []) phase ≡ true)
      × HasLatest s.task_id e.store (λ c. c.state ≡ s)
  IsRecorded phase (blocked s reason) e = HasLatest s.task_id e.store (λ c.
      (c.state.status ≡ paused)
      × (c.state.current_phase ≡ some phase)
      × ((at : ℕ) × (c.state.current_action_index ≡ some at)))
  IsRecorded phase (failed s action index reason) e = Unit

  -- every transition of these actions goes to a later one
  abbrev pub IsForward : List (ActionRef H) → Type 0
  IsForward actions =
      (index next : ℕ) (result : Result Reason (Unit {0})) (via : Bool)
      → resolve_next_step actions index result ≡ proceed next via
      → index < next

  abbrev pub IsSettled : Snapshot S → String → PhaseResult S × Engine F H → Type 0
  IsSettled base phase (result, e) =
      Extends base (result_snapshot result) × IsRecorded phase result e

  -- one round of the loop at `index`: in a phase whose routing only goes forward, so does the round
  abbrev pub IsStep : Snapshot S → PhaseRun F H → ℕ → StepResult F H × Engine F H → Type 0
  IsStep base r index (finished result, e) = IsSettled base r.input.phase.name (result, e)
  IsStep base r index (again c, e) =
      Extends base c.state × (IsForward r.input.phase.actions → index < c.index)

  pub write_checkpoint-latest :
      (phase : String) (s : Snapshot S) (e : Engine F H)
      → HasLatest s.task_id (write_checkpoint F H phase s e).store (λ c. c.state ≡ s)
  unfolding write_checkpoint checkpoint_of
  write_checkpoint-latest phase s e =
      let (id, w1) = fresh_id "ckpt_" e.world in
      let (at, w2) = now w1 in
      let c = checkpoint_of F H id at phase s in
      record {
        checkpoint = c;
        latest =
            get_latest_checkpoint-save_checkpoint c e.store s.task_id ∙ rw (eq_refl s.task_id) refl;
        holds = refl;
      }

  -- a hook that runs later writes no checkpoint
  pub HasLatest-run_late_hook :
      (hook : Option (ActionContext H → Payload F H → Outside H → Result String Value × Outside H))
      (ctx : ActionContext H) (payload : Payload F H) (e : Engine F H) (task_id : String)
      (P : Checkpoint S → Type 0)
      → HasLatest task_id e.store P
      → HasLatest task_id (run_late_hook F H hook ctx payload e).store P
  unfolding run_late_hook get_latest_checkpoint
  HasLatest-run_late_hook hook ctx payload e task_id P h = record {
    checkpoint = h.checkpoint;
    latest = h.latest;
    holds = h.holds;
  }

  pub complete_phase-IsSettled :
      (r : PhaseRun F H) (s base : Snapshot S) (e : Engine F H)
      → Extends base s
      → IsSettled base r.input.phase.name (complete_phase F H r s e)
  unfolding complete_phase advance
  complete_phase-IsSettled r s base e x =
      let phase = r.input.phase.name in
      (
        Extends-trans base s (advance F H s phase) x (
            Extends-with s s.risk s.guidance (advance F H s phase).completed_phases
              s.current_phase),
        (
          includes-add_once (or_else s.completed_phases []) phase phase ∙ rw (eq_refl phase) refl,
          HasLatest-run_late_hook r.input.phase.hooks.after r.ctx (snapshot (advance F H s phase))
              (write_checkpoint F H phase (advance F H s phase) e) s.task_id
              (λ c. c.state ≡ advance F H s phase)
              (write_checkpoint-latest phase (advance F H s phase) e),
        ),
      )

  follow-IsStep :
      (next : NextStep) (result : Result Reason (Unit {0})) (r : PhaseRun F H) (c : Cursor F H)
      (name : String) (s base : Snapshot S) (e : Engine F H)
      → resolve_next_step r.input.phase.actions c.index result ≡ next
      → Extends base s
      → IsStep base r c.index (RunPhase.follow F H next r c name s e)
  unfolding RunPhase.follow fail
  follow-IsStep end_success result r c name s base e h x = complete_phase-IsSettled r s base e x
  follow-IsStep (end_failure reason) result r c name s base e h x = (x, tt)
  follow-IsStep (proceed next via) result r c name s base e h x =
      (x, λ forward. forward c.index next result via h)

  settle_jump-IsStep :
      (result : Result Reason (Unit {0})) (r : PhaseRun F H) (c : Cursor F H) (name : String)
      (s base : Snapshot S) (e : Engine F H)
      → Extends base s
      → IsStep base r c.index (RunPhase.settle_jump F H result r c name s e)
  unfolding RunPhase.settle_jump fail
  settle_jump-IsStep (ok u) r c name s base e x = complete_phase-IsSettled r s base e x
  settle_jump-IsStep (err reason) r c name s base e x = (x, tt)

  pub route-IsStep :
      (ref : ActionRef H) (result : Result Reason (Unit {0})) (r : PhaseRun F H) (c : Cursor F H)
      (target : Bool) (name : String) (s base : Snapshot S) (e : Engine F H)
      → Extends base s
      → IsStep base r c.index (RunPhase.route F H ref result r c target name s e)
  unfolding RunPhase.route
  route-IsStep ref result r c target name s base e x =
      elim (Bool-cases (target && is_plain F H ref)) [
        | inl ends ↦ rw ends (settle_jump-IsStep result r c name s base e x)
        | inr on ↦ rw on (
            follow-IsStep (resolve_next_step r.input.phase.actions c.index result) result r c name s
              base e refl x)
      ]
