-- ===== src/Lifecycle/Gate.antt =====
-- Pause and resume (engine/runtime-lifecycle.ts): what a pause writes a resume reads, and a terminal task
-- is neither paused nor resumed.
use mathlib.Core.Option
use delta_agents.Common.{
  String, ◌≡◌, refl, sym, subst, ap, ◌∙◌, true, false, Option, none, some, Result, ok, err, arith,
  eq_refl, Bool-cases, inl, inr,
}
use delta_agents.Common.Dict
use delta_agents.Common.Dict.{get-put}
use delta_agents.Scores.{Scores}
use delta_agents.Types.{ExecutionStatus, running, paused}
use delta_agents.State.{Snapshot, Task, with_status}
use delta_agents.Store.{
  Store, Checkpoint, includes_status, transition_task_status, get_latest_checkpoint,
  save_checkpoint,
}
use delta_agents.Store.Laws.{
  get_latest_checkpoint-save_checkpoint, get-update_task, transition_task_status-refused,
  transition_task_status-swapped, get_task-stored, latest-update_task,
}
use delta_agents.Host.{Host}
use delta_agents.Execution.{Engine}
use delta_agents.Lifecycle.{
  not_swapped, already_terminal, is_terminal, swapped_from, best, write_pause, pause_found,
  pause_task, Drivers, drive, free_or_workflow, gate, resume_found, resume_task,
}

ended-not_swapped :
    (status : ExecutionStatus)
    → is_terminal status ≡ true
    → includes_status swapped_from status ≡ false
unfolding is_terminal includes_status
ended-not_swapped ExecutionStatus.completed h = refl
ended-not_swapped ExecutionStatus.failed h = refl
ended-not_swapped ExecutionStatus.aborted h = refl
ended-not_swapped ExecutionStatus.pending h = absurd (ground arith)
ended-not_swapped ExecutionStatus.running h = absurd (ground arith)
ended-not_swapped ExecutionStatus.paused h = absurd (ground arith)
ended-not_swapped ExecutionStatus.pending_commit h = absurd (ground arith)

marked_again :
    {S : Type 0}
    → (c s : Snapshot S) → c ≡ with_status s paused
    → with_status c running ≡ with_status s running
unfolding with_status
marked_again c s e = rw e refl

module _ {F : Scores} {H : Host} where
  open F use {S}
  open H use {now}

  -- A task that has ended is neither paused nor resumed, and nothing of the store changes.
  pub terminal-stays :
      {O : Type 0}
      → (d : Drivers F H O) (id : String) (e : Engine F H) (t : Task S)
      → Dict.get e.store.tasks id ≡ some t
      → is_terminal t.status ≡ true
      → (pause_task id e ≡ (err (already_terminal id t.status), e))
        × ((resume_task d id e).0 ≡ err (not_swapped id))
        × ((resume_task d id e).1.store ≡ e.store)
  unfolding pause_task resume_task pause_found resume_found gate
  terminal-stays d id e t stored ended =
      let known = get_task-stored id e.store t stored in
      let refused =
        transition_task_status-refused id swapped_from running (now e.world).0 e.store t stored
          (ended-not_swapped t.status ended) in
      (
        rw (known, pause_found)
            (elim (Bool-cases (is_terminal t.status)) [
              | inl over ↦ rw over refl
              | inr live ↦ absurd (ground arith)
            ]),
        rw (known, resume_found, refused) refl,
        rw (known, resume_found, refused) refl,
      )

  -- What a resume after a pause does: it drives the task from the snapshot `s`, in an engine `e'` where the
  -- task is running.
  abbrev pub Resumed : {O : Type 0} → Drivers F H O → String → Snapshot S → Engine F H → Type 0
  Resumed {O = O} d id s e =
      (t : Task S) × (e' : Engine F H) × (Dict.get e.store.tasks id ≡ some t)
      × (t.status ≡ paused)
      × (Option.map (λ (x : Task S). x.status) (Dict.get e'.store.tasks id) ≡ some running)
      × (resume_task d id e
          ≡ (ok (free_or_workflow d t.workflow t s e').0, (free_or_workflow d t.workflow t s e').1))

  -- what a pause leaves in the store
  Paused : String → Snapshot S → Engine F H → Type 0
  Paused id s e =
      (c : Checkpoint S) × (t : Task S) × (get_latest_checkpoint id e.store ≡ some c)
      × (c.state ≡ with_status s paused)
      × (Dict.get e.store.tasks id ≡ some t)
      × (t.status ≡ paused)

  write_pause-Paused :
      (id : String) (s : Snapshot S) (e : Engine F H) (t : Task S)
      → Dict.get e.store.tasks id ≡ some t
      → Paused id s (write_pause id s e)
  unfolding write_pause Paused save_checkpoint
  write_pause-Paused id s e t stored =
      let (ckpt_id, w1) = H.fresh_id "ckpt_" e.world in
      let (created, w2) = now w1 in
      let (updated, w3) = now w2 in
      let c : Checkpoint S = record {
        id = ckpt_id;
        task_id = id;
        phase = none;
        state = with_status s paused;
        created_at = created;
      } in
      let patch = λ (x : Task S). record x { status = paused; updated_at = updated } in
      let store1 = (save_checkpoint c e.store).1 in
      let saved = get_latest_checkpoint-save_checkpoint c e.store id in
      let changed = get-update_task id id patch store1 in
      (
        c,
        patch t,
        latest-update_task id patch store1 ∙ (saved ∙ rw eq_refl refl),
        refl,
        changed ∙ rw (eq_refl, stored) refl,
        refl,
      )

  pause_task-live :
      (id : String) (e : Engine F H) (t : Task S)
      → Dict.get e.store.tasks id ≡ some t
      → is_terminal t.status ≡ false
      → pause_task id e ≡ (ok tt, write_pause id (best (get_latest_checkpoint id e.store) t) e)
  unfolding pause_task pause_found
  pause_task-live id e t stored live =
      rw (get_task-stored id e.store t stored, pause_found)
        (elim (Bool-cases (is_terminal t.status)) [
          | inl over ↦ absurd (ground arith)
          | inr still ↦ rw still refl
        ])

  drive-paused :
      {O : Type 0}
      → (d : Drivers F H O) (status : ExecutionStatus) (t : Task S) (s : Snapshot S)
        (e : Engine F H)
      → status ≡ paused
      → drive d status t s e ≡ free_or_workflow d t.workflow t s e
  unfolding drive
  drive-paused d status t s e h = rw (h, drive) refl

  resume_task-Paused :
      {O : Type 0}
      → (d : Drivers F H O) (id : String) (s : Snapshot S) (e : Engine F H) → Paused id s e
      → Resumed d id (with_status s running) e
  unfolding Paused resume_task resume_found gate includes_status best
  resume_task-Paused d id s e (c, t, latest, state, stored, is_paused) =
      let (at, w) = now e.world in
      let t2 = record t { status = running; updated_at = at } in
      let expected : includes_status swapped_from t.status ≡ true =
        subst (λ x. includes_status swapped_from x ≡ true) (sym is_paused) refl in
      let swapped =
        transition_task_status-swapped id swapped_from running at e.store t stored expected in
      let e' : Engine F H = record {
        store = record e.store { tasks = Dict.put e.store.tasks id t2 };
        world = w;
      } in
      let after_swap = λ (l : Option (Checkpoint S)) (p : Result String (Task S) × Store S).
        gate d id t (with_status (best l t) running) p.0 (record { store = p.1; world = w }) in
      let from : with_status c.state running ≡ with_status s running =
        marked_again c.state s state in
      (
        t,
        e',
        stored,
        is_paused,
        rw (get-put, eq_refl) refl,
        ap (λ x. resume_found d id x e) (get_task-stored id e.store t stored)
            ∙ (ap (λ l. after_swap l (transition_task_status id swapped_from running at e.store))
                  latest
                ∙ (ap (after_swap (some c)) swapped
                    ∙ rw
                        (drive-paused d t.status t (with_status c.state running) e' is_paused, from)
                        refl)),
      )

  -- A task that is stored and has not ended can be paused: its latest checkpoint is then the best snapshot
  -- that it had, marked paused, and a resume drives it from that snapshot, marked running.
  pub resume_task-pause_task :
      {O : Type 0}
      → (d : Drivers F H O) (id : String) (e : Engine F H) (t : Task S)
      → Dict.get e.store.tasks id ≡ some t
      → is_terminal t.status ≡ false
      → let s = best (get_latest_checkpoint id e.store) t in
        let e1 = (pause_task id e).1 in
        ((pause_task id e).0 ≡ ok tt)
        × (Option.map (λ (c : Checkpoint S). c.state) (get_latest_checkpoint id e1.store)
            ≡ some (with_status s paused))
        × Resumed d id (with_status s running) e1
  unfolding Paused
  resume_task-pause_task d id e t stored live =
      let s = best (get_latest_checkpoint id e.store) t in
      let paused_now = write_pause-Paused id s e t stored in
      let (c, t1, latest, state, there, is_paused) = paused_now in
      rw (pause_task-live id e t stored live)
        (refl, rw (latest, state) refl, resume_task-Paused d id s (write_pause id s e) paused_now)
