-- ===== src/Scheduler/Run/Potential.antt =====
-- The potential of a run (engine/scheduler.ts): the steps that its runners may still take, with those of
-- the children that wait and of the delegations that are still to come. No part of `settle` raises it.
use delta_agents.Common.{
  ℕ, zero, suc, ◌+◌, ◌-◌, ◌*◌, ◌≤◌, ◌<◌, String, ◌≡◌, refl, ◌∙◌, false, not, ◌&&◌, Option, none,
  some, List, [], ◌∷◌, ◌++◌, ◌==◌, Result, ok, err, arith, if◌then◌else◌, length, get_elem?,
  Bool-cases, Option-cases, inl, inr,
}
use delta_agents.Scores.{Scores}
use delta_agents.Types.{ExecutionStatus, TaskTree}
use delta_agents.State.{Snapshot, Task}
use delta_agents.Store.{get_task, get_task_tree, update_task_tree}
use delta_agents.Store.Laws.{get_task_tree-update_task}
use delta_agents.Store.Abort.{abort_entire_tree, get_task_tree-update_task_tree}
use delta_agents.Store.Abort.Trees.{get_task_tree-abort_entire_tree}
use delta_agents.Supervision.{release_slot}
use delta_agents.Supervision.Slots.{release_slot-waiting}
use native.Mathlib.Nat.{mul-le-mul_left, mul-add, mul-one}
use delta_agents.Host.{Host}
use delta_agents.Scheduler.Runner.{
  SendStatus, SendResult, StopReason, Runner, make_runner, task_status_for,
}
use delta_agents.Scheduler.Run.{
  Runtime, Run, update_at, find_runner, settle_with, refunded, abort_runner, abort_runners,
  is_completed, the_store, with_store, with_runners, read_clock, set_status, start, start_runner,
  refund_parent, promoted, release, leave_tree, cascade, settle,
}

module _ {S A : Type 0} where
  -- the steps that a runner may still take, one more for its end
  abbrev pub weight : Runner S A → ℕ
  weight r = if r.settled then 0 else suc (r.max_steps - r.step)

  abbrev pub weights : List (Runner S A) → ℕ
  weights [] = 0
  weights (r ∷ rs) = weight r + weights rs

  pub weights-append : (rs qs : List (Runner S A)) → weights (rs ++ qs) ≡ weights rs + weights qs
  weights-append [] qs = omega arith
  weights-append (r ∷ rs) qs = omega (arith, weights-append rs qs)

  -- a change that makes no runner heavier
  pub weights-update_at :
      (rs : List (Runner S A)) (i : ℕ) (f : Runner S A → Runner S A)
      → ((r : Runner S A) → weight (f r) ≤ weight r)
      → weights (update_at rs i f) ≤ weights rs
  weights-update_at [] i f h = omega arith
  weights-update_at (r ∷ rs) zero f h = omega (arith, h r)
  weights-update_at (r ∷ rs) (suc i) f h = omega (arith, weights-update_at rs i f h)

  -- one that makes the runner at the position lighter
  pub weights-lighter :
      (rs : List (Runner S A)) (i : ℕ) (f : Runner S A → Runner S A) (r : Runner S A)
      → get_elem? rs i ≡ some r
      → weight (f r) < weight r
      → weights (update_at rs i f) < weights rs
  weights-lighter [] i f r e h = absurd (ground arith)
  weights-lighter (x ∷ rs) zero f r e h = ground arith
  weights-lighter (x ∷ rs) (suc i) f r e h = omega (arith, weights-lighter rs i f r e h)

  weights-abort_runners :
      (root_id : String) (rs : List (Runner S A)) → weights (abort_runners root_id rs) ≤ weights rs
  unfolding abort_runner settle_with
  weights-abort_runners root_id [] = omega arith
  weights-abort_runners root_id (r ∷ rs) = ground (arith, weights-abort_runners root_id rs)

-- a tree's part: the children that wait
abbrev pub waiting : Result String TaskTree → ℕ
waiting (err e) = 0
waiting (ok tree) = length tree.queued_children

-- What `left`, a measure of the world, says of the delegations to come: reading the clock and drawing an
-- id do not raise it.
pub record IsSteady (H : Host) (left : H.World → ℕ) : Type 0 where
  pub clock : (w : H.World) → left (H.now w).1 ≤ left w
  pub ids : (prefix : String) (w : H.World) → left (H.fresh_id prefix w).1 ≤ left w

pub scale-step : (m a b : ℕ) → a + 1 ≤ b → m * a + m ≤ m * b
scale-step m a b h = omega (arith, mul-le-mul_left m h, mul-add m a 1, mul-one m)

module _ {F : Scores} {H : Host} {R : Runtime F H} (left : H.World → ℕ) where
  abbrev pub credit : Run F H R → ℕ
  credit run = waiting (get_task_tree run.root_id (the_store run)) + left run.engine.world

  abbrev pub potential : Run F H R → ℕ
  potential run = weights run.runners + suc R.max_steps * credit run

  -- The root stays, and the potential rises by no more than `gain`.
  pub record Moves (gain : ℕ) (run run' : Run F H R) : Type 0 where
    pub root : run'.root_id ≡ run.root_id
    pub bounded : potential run' ≤ potential run + gain

  pub Moves-then : (gain : ℕ) (x y z : Run F H R) → Moves 0 x y → Moves gain y z → Moves gain x z
  Moves-then gain x y z h k = record {
    root = k.root ∙ h.root;
    bounded = omega (arith, h.bounded, k.bounded);
  }

  -- no more than one new runner's weight is added, and no credit
  pub Moves-by :
      (gain : ℕ) (run run' : Run F H R)
      → run'.root_id ≡ run.root_id
      → weights run'.runners ≤ weights run.runners + gain
      → credit run' ≤ credit run
      → Moves gain run run'
  Moves-by gain run run' root w c = record {
    root = root;
    bounded = omega (arith, mul-le-mul_left (suc R.max_steps) c);
  }

  -- no weight is added, and no more than one child that waits
  pub Moves-by_credit :
      (run run' : Run F H R)
      → run'.root_id ≡ run.root_id
      → weights run'.runners ≤ weights run.runners
      → credit run' ≤ credit run + 1
      → Moves (suc R.max_steps) run run'
  Moves-by_credit run run' root w c = record {
    root = root;
    bounded = omega (
      arith,
      mul-le-mul_left (suc R.max_steps) c,
      mul-add (suc R.max_steps) (credit run) 1,
      mul-one (suc R.max_steps),
    );
  }

  -- what was paid out of the credit pays for `n` delegations
  pub falls_by :
      (n : ℕ) (run run1 run2 : Run F H R)
      → weights run1.runners < weights run.runners
      → credit run1 + n ≤ credit run
      → potential run2 ≤ potential run1 + suc R.max_steps * n
      → potential run2 < potential run
  falls_by n run run1 run2 w c p =
      omega (
        arith,
        w,
        mul-le-mul_left (suc R.max_steps) c,
        mul-add (suc R.max_steps) (credit run1) n,
        p,
      )

  pub Moves-refl : (run : Run F H R) → Moves 0 run run
  Moves-refl run = record { root = refl; bounded = omega arith }

  -- one more runner
  pub push-Moves :
      (r : Runner F.S R.Agent) (run : Run F H R)
      → weight r ≤ suc R.max_steps
      → Moves (suc R.max_steps) run (with_runners run (run.runners ++ r ∷ []))
  unfolding with_runners
  push-Moves r run h =
      Moves-by (suc R.max_steps) run (with_runners run (run.runners ++ r ∷ [])) refl
        (omega (arith, weights-append run.runners (r ∷ []), h)) (omega arith)

  -- the runners are changed, and none becomes heavier
  pub with_runners-Moves :
      (run : Run F H R) (rs : List (Runner F.S R.Agent))
      → weights rs ≤ weights run.runners
      → Moves 0 run (with_runners run rs)
  unfolding with_runners
  with_runners-Moves run rs h =
      Moves-by 0 run (with_runners run rs) refl (omega (arith, h)) (omega arith)

  module _ (steady : IsSteady H left) where
    pub read_clock-Moves : (run : Run F H R) → Moves 0 run (read_clock run).1
    unfolding read_clock
    read_clock-Moves run =
        Moves-by 0 run (read_clock run).1 refl (omega arith)
          (omega (arith, steady.clock run.engine.world))

    pub set_status-Moves :
        (id : String) (status : ExecutionStatus) (run : Run F H R)
        → Moves 0 run (set_status id status run)
    unfolding set_status with_store read_clock
    set_status-Moves id status run =
        let at = (H.now run.engine.world).0 in
        let same =
          get_task_tree-update_task id run.root_id
            (λ (t : Task F.S). record t { status = status; updated_at = at }) (the_store run) in
        Moves-by 0 run (set_status id status run) refl (omega arith)
          (rw same (omega (arith, steady.clock run.engine.world)))

    start-Moves :
        (found : Result String (Task F.S)) (id : String) (run : Run F H R)
        → Moves (suc R.max_steps) run (start found id run)
    unfolding start make_runner
    start-Moves (err e) id run = record { root = refl; bounded = omega arith }
    start-Moves (ok child) id run = elim (Option-cases (R.get_agent child.assigned_agent)) [
      | inl missing ↦ rw (missing, start) (record { root = refl; bounded = omega arith })
      | inr (agent, known) ↦
          rw (known, start)
            (Moves-then (suc R.max_steps) run _ _ (set_status-Moves id ExecutionStatus.running run)
              (push-Moves _ (set_status id ExecutionStatus.running run) (omega arith)))
    ]

    pub start_runner-Moves :
        (id : String) (run : Run F H R) → Moves (suc R.max_steps) run (start_runner id run)
    unfolding start_runner
    start_runner-Moves id run = start-Moves (get_task id (the_store run)) id run

    refund_parent-Moves :
        (parent_id : String) (child : Snapshot F.S) (run : Run F H R)
        → Moves 0 run (refund_parent parent_id child run)
    unfolding refund_parent refunded
    refund_parent-Moves parent_id child run =
        elim (Option-cases (find_runner parent_id run.runners)) [
          | inl none_there ↦ rw (none_there, refund_parent) (Moves-refl run)
          | inr (p, at) ↦
              rw (at, refund_parent)
                (with_runners-Moves run _ (weights-update_at run.runners p _ (λ r. omega arith)))
        ]

    release-Moves :
        (found : Result String TaskTree) (task_id : String) (run : Run F H R)
        → get_task_tree run.root_id (the_store run) ≡ found
        → Moves 0 run (release found task_id run)
    unfolding release promoted with_store
    release-Moves (err e) task_id run h = Moves-refl run
    release-Moves (ok tree) task_id run h =
        let released = release_slot tree task_id in
        let patch = λ (t : TaskTree). record t {
          active_children = released.tree.active_children;
          queued_children = released.tree.queued_children;
        } in
        let run1 = with_store run (update_task_tree run.root_id patch (the_store run)).1 in
        let stored =
          get_task_tree-update_task_tree (λ id. 0) run.root_id patch (the_store run) tree h in
        elim (release_slot-waiting tree task_id) [
          | inl (idle, same) ↦
              rw idle
                (Moves-by 0 run run1 refl (omega arith) (rw (stored, h) (omega (arith, same))))
          | inr (head, started, fewer) ↦ rw started (
              let moved = start_runner-Moves head run1 in
              record {
                root = moved.root;
                bounded = omega (
                  arith,
                  moved.bounded,
                  scale-step (suc R.max_steps) (credit run1) (credit run)
                      (rw (stored, h) (omega (arith, fewer))),
                );
              })
        ]

    pub leave_tree-Moves :
        (parent_id : Option String) (task_id : String) (s : Snapshot F.S) (run : Run F H R)
        → Moves 0 run (leave_tree parent_id task_id s run)
    unfolding leave_tree
    leave_tree-Moves none task_id s run = Moves-refl run
    leave_tree-Moves (some parent_id) task_id s run =
        let run1 = refund_parent parent_id s run in
        let moved =
          Moves-then 0 run run1 _ (refund_parent-Moves parent_id s run)
            (release-Moves (get_task_tree run1.root_id (the_store run1)) task_id run1 refl) in
        elim (Bool-cases run1.tree_initialized) [
          | inl e ↦ rw e moved
          | inr e ↦ rw e (Moves-refl run)
        ]

    pub cascade-Moves :
        (task_id : String) (status : SendStatus) (run : Run F H R)
        → Moves 0 run (cascade task_id status run)
    unfolding cascade read_clock with_runners with_store
    cascade-Moves task_id status run =
        let at = (H.now run.engine.world).0 in
        let cleared = get_task_tree-abort_entire_tree (λ id. at) run.root_id (the_store run) in
        let fewer : waiting (
              get_task_tree run.root_id
                (abort_entire_tree (λ id. at) run.root_id (the_store run)).1)
            ≤ waiting (get_task_tree run.root_id (the_store run)) =
          elim cleared [
            | inl same ↦ rw same (omega arith)
            | inr (t, gone) ↦ rw gone (omega arith)
          ] in
        let test = task_id == run.root_id && (not (is_completed status) && run.tree_initialized) in
        elim (Bool-cases test) [
          | inl e ↦ rw e (
              Moves-by 0 run _ refl (omega (arith, weights-abort_runners run.root_id run.runners))
                (omega (arith, fewer, steady.clock run.engine.world)))
          | inr e ↦ rw e (Moves-refl run)
        ]

    -- A runner that was not settled makes the potential smaller as it settles.
    pub settle-descends :
        (i : ℕ) (r old : Runner F.S R.Agent) (status : SendStatus) (reason : Option StopReason)
        → (run : Run F H R) → get_elem? run.runners i ≡ some old
        → old.settled ≡ false
        → ((settle i r status reason run).root_id ≡ run.root_id)
          × (potential (settle i r status reason run) < potential run)
    unfolding settle settle_with with_runners
    settle-descends i r old status reason run at open_still =
        let result : SendResult F.S = record {
          task_id = r.task.id;
          status = status;
          snapshot = r.snapshot;
          reason = reason;
        } in
        let run1 = with_runners run (update_at run.runners i (settle_with result)) in
        let run2 = set_status r.task.id (task_status_for status) run1 in
        let run3 = leave_tree r.task.parent_id r.task.id r.snapshot run2 in
        let lighter = weights-lighter run.runners i (settle_with result) old at (ground arith) in
        let moved : Moves 0 run1 (settle i r status reason run) =
          Moves-then 0 run1 run2 _ (set_status-Moves r.task.id (task_status_for status) run1) (
            Moves-then 0 run2 run3 _ (leave_tree-Moves r.task.parent_id r.task.id r.snapshot run2)
              (cascade-Moves r.task.id status run3)) in
        (moved.root, omega (arith, moved.bounded, lighter))
