-- ===== src/Scheduler/Run/Kept.antt =====
-- What holds of every runner of a run (engine/scheduler.ts) through the start and the end of runners, for
-- any predicate that a new runner, a settlement and a refund keep.
use delta_agents.Common.{
  ℕ, zero, suc, String, ◌≡◌, refl, Bool, true, false, not, ◌&&◌, ◌||◌, Option, none, some, List, [],
  ◌∷◌, ◌==◌, Result, ok, err, if◌then◌else◌, arith, is_some, All, All-append, Bool-cases,
  Option-cases, inl, inr,
}
use delta_agents.Cost.{Cost}
use delta_agents.Scores.{Scores}
use delta_agents.Types.{TaskTree}
use delta_agents.State.{Snapshot, Task}
use delta_agents.Store.{get_task, get_task_tree}
use delta_agents.Host.{Host}
use delta_agents.Supervision.{release_slot}
use delta_agents.Scheduler.Runner.{SendStatus, SendResult, StopReason, Runner, make_runner}
use delta_agents.Scheduler.Run.{
  Runtime, Run, update_at, find_runner, settle_with, shown, refunded, abort_runner, abort_runners,
  is_completed, the_store, with_store, with_runners, read_clock, set_status, start, start_runner,
  refund_parent, promoted, release, leave_tree, cascade, settle,
}

-- the statuses with which a task of a run settles
abbrev pub is_end : SendStatus → Bool
is_end SendStatus.completed = true
is_end SendStatus.failed = true
is_end SendStatus.blocked = true
is_end _ = false

pub record IsKept {S A : Type 0} (P : Runner S A → Type 0) : Type 0 where
  pub new : (t : Task S) (a : A) (s : Snapshot S) (n : ℕ) → P (make_runner t a s n)
  pub settling :
      (x : SendResult S) (r : Runner S A) → is_end x.status ≡ true → P r → P (settle_with x r)
  pub refunding : (c : Cost) (r : Runner S A) → P r → P (refunded c r)

module _ {S A : Type 0} (P : Runner S A → Type 0) where
  pub All-update_at :
      (rs : List (Runner S A)) (i : ℕ) (f : Runner S A → Runner S A)
      → ((r : Runner S A) → P r → P (f r))
      → All P rs
      → All P (update_at rs i f)
  All-update_at [] i f h k = tt
  All-update_at (r ∷ rs) zero f h (p, k) = (h r p, k)
  All-update_at (r ∷ rs) (suc i) f h (p, k) = (p, All-update_at rs i f h k)

  abort_runners-All :
      IsKept P
      → (root_id : String) (rs : List (Runner S A)) → All P rs
      → All P (abort_runners root_id rs)
  unfolding abort_runner
  abort_runners-All kept root_id [] h = tt
  abort_runners-All kept root_id (r ∷ rs) (p, h) =
      let rest = abort_runners-All kept root_id rs h in
      elim (Bool-cases (r.settled || r.task.id == root_id)) [
        | inl e ↦ rw e (p, rest)
        | inr e ↦ rw e (kept.settling _ r refl p, rest)
      ]

module _ {F : Scores} {H : Host} {R : Runtime F H} (P : Runner F.S R.Agent → Type 0)
    (kept : IsKept P) where
  abbrev pub Holds : Run F H R → Type 0
  Holds run = All P run.runners

  start-Holds :
      (found : Result String (Task F.S)) (id : String) (run : Run F H R)
      → Holds run
      → Holds (start found id run)
  unfolding start set_status with_runners with_store read_clock
  start-Holds (err e) id run h = h
  start-Holds (ok child) id run h = elim (Option-cases (R.get_agent child.assigned_agent)) [
    | inl missing ↦ rw (missing, start) h
    | inr (agent, known) ↦ rw (known, start) (All-append P run.runners _ h (kept.new _ _ _ _, tt))
  ]

  pub start_runner-Holds : (id : String) (run : Run F H R) → Holds run → Holds (start_runner id run)
  unfolding start_runner
  start_runner-Holds id run h = start-Holds (get_task id (the_store run)) id run h

  refund_parent-Holds :
      (parent_id : String) (child : Snapshot F.S) (run : Run F H R)
      → Holds run
      → Holds (refund_parent parent_id child run)
  unfolding refund_parent with_runners
  refund_parent-Holds parent_id child run h =
      elim (Option-cases (find_runner parent_id run.runners)) [
        | inl none_there ↦ rw (none_there, refund_parent) h
        | inr (p, at) ↦
            rw (at, refund_parent) (All-update_at P run.runners p _ (kept.refunding _) h)
      ]

  promoted-Holds : (id : Option String) (run : Run F H R) → Holds run → Holds (promoted id run)
  unfolding promoted
  promoted-Holds none run h = h
  promoted-Holds (some id) run h = start_runner-Holds id run h

  release-Holds :
      (found : Result String TaskTree) (task_id : String) (run : Run F H R)
      → Holds run
      → Holds (release found task_id run)
  unfolding release with_store
  release-Holds (err e) task_id run h = h
  release-Holds (ok tree) task_id run h = promoted-Holds (release_slot tree task_id).promoted _ h

  leave_tree-Holds :
      (parent_id : Option String) (task_id : String) (s : Snapshot F.S) (run : Run F H R)
      → Holds run
      → Holds (leave_tree parent_id task_id s run)
  unfolding leave_tree
  leave_tree-Holds none task_id s run h = h
  leave_tree-Holds (some parent_id) task_id s run h =
      let run1 = refund_parent parent_id s run in
      let left =
        release-Holds (get_task_tree run1.root_id (the_store run1)) task_id run1
          (refund_parent-Holds parent_id s run h) in
      elim (Bool-cases run1.tree_initialized) [ inl e ↦ rw e left | inr e ↦ rw e h ]

  cascade-Holds :
      (task_id : String) (status : SendStatus) (run : Run F H R)
      → Holds run
      → Holds (cascade task_id status run)
  unfolding cascade read_clock with_runners with_store
  cascade-Holds task_id status run h =
      elim (Bool-cases
        (task_id == run.root_id && (not (is_completed status) && run.tree_initialized))) [
          | inl e ↦ rw e (abort_runners-All P kept run.root_id run.runners h)
          | inr e ↦ rw e h
        ]

  pub settle-Holds :
      (i : ℕ) (r : Runner F.S R.Agent) (status : SendStatus) (reason : Option StopReason)
      (run : Run F H R)
      → is_end status ≡ true
      → Holds run
      → Holds (settle i r status reason run)
  unfolding settle with_runners set_status with_store read_clock
  settle-Holds i r status reason run end h = cascade-Holds r.task.id status _ (
      leave_tree-Holds r.task.parent_id r.task.id r.snapshot _
        (All-update_at P run.runners i _ (λ old p. kept.settling _ old end p) h))

abbrev pub ends : {S : Type 0} → Option (SendResult S) → Bool
ends none = false
ends (some x) = is_end x.status

abbrev pub reported : {S A : Type 0} → Runner S A → Bool
reported r = if r.settled then ends r.result else not (is_some r.result)

abbrev pub IsReported : {S A : Type 0} → Runner S A → Type 0
IsReported r = reported r ≡ true

-- a refund rewrites the snapshot of a result, not its status
shown-same :
    {S : Type 0}
    → (s : Snapshot S) (x : Option (SendResult S))
    → (ends (shown s x) ≡ ends x) × (is_some (shown s x) ≡ is_some x)
unfolding shown
shown-same s none = (refl, refl)
shown-same s (some x) = (refl, refl)

pub IsReported-IsKept : {S A : Type 0} → IsKept {S = S} {A = A} IsReported
unfolding make_runner settle_with refunded
IsReported-IsKept = record {
  new = λ t a s n. refl;
  settling = λ x r end h. end;
  refunding = λ c r h.
      let (same_end, same_some) = shown-same (refunded c r).snapshot r.result in ground arith;
}
