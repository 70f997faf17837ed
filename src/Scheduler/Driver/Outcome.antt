-- ===== src/Scheduler/Driver/Outcome.antt =====
-- What a run of the scheduler returns (engine/scheduler.ts): it ends, and it reports a task as completed
-- only if its subtree is.
use delta_agents.Common.{
  ℕ, ◌≤◌, String, ◌≡◌, refl, ap, ◌∙◌, sym, subst, or_else, Bool, true, false, Option, none, some,
  List, [], ◌∷◌, ◌==◌, Result, ok, err, arith, All, all, Bool-cases, Option-cases, inl, inr,
}
use delta_agents.Scores.{Scores}
use delta_agents.Types.{TaskTree}
use delta_agents.State.{Task}
use delta_agents.Store.{get_task, get_task_tree}
use delta_agents.Host.{Host}
use delta_agents.Execution.{Engine}
use delta_agents.LoopDetector.{LoopDetector}
use delta_agents.Scheduler.Runner.{SendStatus, SendResult, Runner}
use delta_agents.Scheduler.Run.{Runtime, Run, the_store, find_runner, is_completed}
use delta_agents.Scheduler.Run.Kept.{
  is_end, ends, reported, IsReported, IsReported-IsKept, start_runner-Holds,
}
use delta_agents.Scheduler.Run.Potential.{potential}
use delta_agents.Scheduler.Loop.{all_settled, loop}
use delta_agents.Scheduler.Loop.Ends.{loop-ends}
use delta_agents.Scheduler.Loop.Admission.{IsBounded}
use delta_agents.Scheduler.Loop.Reports.{Reports, loop-Reports}
use delta_agents.Scheduler.Driver.{
  is_terminal, is_failed, is_blocked, pick, child_result, rehydrate_child, rehydrate_all, rehydrate,
  blocked_children, failed_children, judged, aggregate, root_result, start_run, reported_by,
  run_scheduler,
}

abbrev pub completes : {S : Type 0} → Option (SendResult S) → Bool
completes none = false
completes (some x) = is_completed x.status

status_left :
    (status : SendStatus)
    → is_end status ≡ true
    → is_failed status ≡ false
    → is_blocked status ≡ false
    → is_completed status ≡ true
unfolding is_failed is_blocked
status_left SendStatus.completed e f b = refl
status_left SendStatus.failed e f b = absurd (ground arith)
status_left SendStatus.blocked e f b = absurd (ground arith)
status_left SendStatus.queued e f b = absurd (ground arith)
status_left SendStatus.pending_commit e f b = absurd (ground arith)

pick-none :
    {S : Type 0}
    → (test : SendStatus → Bool) (is_root : Bool) (result later : Option (SendResult S))
    → pick test is_root result later ≡ none
    → (later ≡ none)
      × (is_root ≡ false → (x : SendResult S) → result ≡ some x → test x.status ≡ false)
unfolding pick
pick-none test true result later h = (h, λ e. absurd (ground arith))
pick-none test false none later h = (h, λ e x at. absurd (ground arith))
pick-none test false (some x) later h = (ground arith, λ e y at. ground arith)

-- what neither failed nor is blocked, and has a result, is completed
completes_left :
    {S : Type 0}
    → (is_root : Bool) (result : Option (SendResult S)) → ends result ≡ true
    → (is_root ≡ false → (x : SendResult S) → result ≡ some x → is_failed x.status ≡ false)
    → (is_root ≡ false → (x : SendResult S) → result ≡ some x → is_blocked x.status ≡ false)
    → is_root ≡ false
    → completes result ≡ true
completes_left is_root none e f b child = absurd (ground arith)
completes_left is_root (some x) e f b child =
    status_left x.status e (f child x refl) (b child x refl)

module _ {S A : Type 0} where
  -- a runner of another task than the root's is completed
  abbrev pub IsDone : String → Runner S A → Type 0
  IsDone root_id r = (r.task.id == root_id) ≡ false → completes r.result ≡ true

  children-IsDone :
      (root_id : String) (rs : List (Runner S A))
      → All IsReported rs
      → all (λ r. r.settled) rs ≡ true
      → child_result is_failed root_id rs ≡ none
      → child_result is_blocked root_id rs ≡ none
      → All (IsDone root_id) rs
  unfolding child_result
  children-IsDone root_id [] h s f b = tt
  children-IsDone root_id (r ∷ rs) (p, h) s f b =
      let (failed_later, not_failed) = pick-none is_failed (r.task.id == root_id) r.result _ f in
      let (blocked_later, not_blocked) = pick-none is_blocked (r.task.id == root_id) r.result _ b in
      (
        completes_left (r.task.id == root_id) r.result (ground arith) not_failed not_blocked,
        children-IsDone root_id rs h (ground arith) failed_later blocked_later,
      )

module _ {F : Scores} {H : Host} {R : Runtime F H} where
  rehydrate_child-Reports :
      (found : Result String (Task F.S)) (id : String) (run : Run F H R)
      → Reports run
      → Reports (rehydrate_child found id run)
  unfolding rehydrate_child
  rehydrate_child-Reports (err e) id run h = h
  rehydrate_child-Reports (ok child) id run h =
      let started = start_runner-Holds IsReported IsReported-IsKept id run h in
      elim (Bool-cases (is_terminal child.status)) [
        | inl over ↦ rw over h
        | inr live ↦ rw live (elim (Option-cases (R.get_agent child.assigned_agent)) [
          | inl unknown ↦ rw unknown h
          | inr (agent, known) ↦ rw known started
        ])
      ]

  rehydrate_all-Reports :
      (ids : List String) (run : Run F H R) → Reports run → Reports (rehydrate_all ids run)
  unfolding rehydrate_all
  rehydrate_all-Reports [] run h = h
  rehydrate_all-Reports (id ∷ ids) run h = elim (Option-cases (find_runner id run.runners)) [
    | inl e ↦
        rw (e, rehydrate_all)
          (rehydrate_all-Reports ids _
            (rehydrate_child-Reports (get_task id (the_store run)) id run h))
    | inr (i, e) ↦ rw (e, rehydrate_all) (rehydrate_all-Reports ids run h)
  ]

  rehydrate-Reports :
      (found : Result String TaskTree) (run : Run F H R)
      → Reports run
      → Reports (rehydrate found run)
  unfolding rehydrate
  rehydrate-Reports (err e) run h = h
  rehydrate-Reports (ok tree) run h = rehydrate_all-Reports tree.active_children _ h

  blocked-completed :
      (child : Option (SendResult F.S)) (x : SendResult F.S) (run : Run F H R)
      → is_completed (blocked_children child x run).0.status ≡ true
      → (child ≡ none) × (blocked_children child x run ≡ (x, run))
  unfolding blocked_children
  blocked-completed none x run h = (refl, refl)
  blocked-completed (some child) x run h = absurd (ground arith)

  failed-completed :
      (child : Option (SendResult F.S)) (x : SendResult F.S) (run : Run F H R)
      → is_completed (failed_children child x run).0.status ≡ true
      → (child ≡ none)
        × (child_result is_blocked run.root_id run.runners ≡ none)
        × (failed_children child x run ≡ (x, run))
  unfolding failed_children
  failed-completed none x run h =
      let (free, same) =
        blocked-completed (child_result is_blocked run.root_id run.runners) x run h in
      (refl, free, same)
  failed-completed (some child) x run h = absurd (ground arith)

  judged-completed :
      (done : Bool) (x : SendResult F.S) (run : Run F H R)
      → is_completed x.status ≡ done
      → is_completed (judged done x run).0.status ≡ true
      → (is_completed x.status ≡ true)
        × (child_result is_failed run.root_id run.runners ≡ none)
        × (child_result is_blocked run.root_id run.runners ≡ none)
        × (judged done x run ≡ (x, run))
  unfolding judged
  judged-completed true x run e h =
      let (none_failed, none_blocked, same) =
        failed-completed (child_result is_failed run.root_id run.runners) x run h in
      (e, none_failed, none_blocked, same)
  judged-completed false x run e h = absurd (ground arith)

module _ {F : Scores} {H : Host} (R : Runtime F H) where
  start_run-Reports :
      (root : Runner F.S R.Agent) (detector : LoopDetector) (e : Engine F H)
      → IsReported root
      → Reports (start_run R root detector e)
  unfolding start_run
  start_run-Reports root detector e h =
      rehydrate-Reports (get_task_tree root.task.root_id e.store) _ (h, tt)

  -- the run that was reported on is the one that the loop ended with
  Reported : Runner F.S R.Agent → SendResult F.S → Run F H R → Type 0
  Reported root result end =
      (all_settled end ≡ true)
      × (root_result root end ≡ result)
      × All (IsDone end.root_id) end.runners

  aggregated :
      (root : Runner F.S R.Agent) (last : Run F H R) (reported : SendResult F.S × Run F H R)
      → Reports last
      → all_settled last ≡ true
      → aggregate (root_result root last) last ≡ reported
      → is_completed reported.0.status ≡ true
      → Reported root reported.0 reported.1
  unfolding aggregate all_settled Reported
  aggregated root last reported h settled e done =
      let x = root_result root last in
      let (root_done, none_failed, none_blocked, same) =
        judged-completed (is_completed x.status) x last refl
          (subst (λ p. is_completed p.0.status ≡ true) (sym e) done) in
      subst (λ p. Reported root p.0 p.1) (sym same ∙ e)
        (
          settled,
          refl,
          children-IsDone last.root_id last.runners h settled none_failed none_blocked,
        )

  by_loop :
      (root : Runner F.S R.Agent) (last : Option (Run F H R)) (result : SendResult F.S)
      (end : Run F H R)
      → ((run : Run F H R) → last ≡ some run → Reports run × (all_settled run ≡ true))
      → reported_by R root last ≡ some (result, end)
      → is_completed result.status ≡ true
      → Reported root result end
  unfolding reported_by
  by_loop root none result end h e done = absurd (ground arith)
  by_loop root (some last) result end h e done =
      let (reports, settled) = h last refl in
      aggregated root last (result, end) reports settled (ap (λ o. or_else o (result, end)) e) done

  -- A run that reports its task as completed has settled every runner; it reports the result of the root,
  -- and every runner of another task ended as completed.
  pub run_scheduler-completed :
      (fuel : ℕ) (root : Runner F.S R.Agent) (detector : LoopDetector) (e : Engine F H)
      → (result : SendResult F.S) (end : Run F H R) → IsReported root
      → run_scheduler R fuel root detector e ≡ some (result, end)
      → is_completed result.status ≡ true
      → (all_settled end ≡ true)
        × (root_result root end ≡ result)
        × All (IsDone end.root_id) end.runners
  unfolding run_scheduler Reported
  run_scheduler-completed fuel root detector e result end h ran done =
      by_loop root (loop fuel (start_run R root detector e)) result end
        (λ run looped.
          loop-Reports fuel (start_run R root detector e) run (start_run-Reports root detector e h)
            looped)
        ran done

  -- Where every delegation uses up some of `left`, the scheduler returns a result within as many passes as
  -- the potential of the run at its start: the steps of the runners, with those of every child that
  -- waits and of every delegation to come.
  pub run_scheduler-ends :
      (left : H.World → ℕ) (b : IsBounded R left) (fuel : ℕ) (root : Runner F.S R.Agent)
      → (detector : LoopDetector) (e : Engine F H)
      → potential left (start_run R root detector e) ≤ fuel
      → (result : SendResult F.S) × (end : Run F H R) × (run_scheduler R fuel root detector e
          ≡ some (result, end))
  unfolding run_scheduler reported_by
  run_scheduler-ends left b fuel root detector e h =
      let (last, looped, settled, same_root) =
        loop-ends left b fuel (start_run R root detector e) h in
      let (result, end) = aggregate (root_result root last) last in (result, end, rw looped refl)
