-- ===== src/Scheduler/Loop/Reports.antt =====
-- A runner has a result exactly if it is settled, and it is completed, failed or blocked: through every
-- pass of the loop (engine/scheduler.ts).
use delta_agents.Common.{
  ℕ, zero, suc, String, ◌≡◌, refl, ap, ◌∙◌, subst, or_else, Bool, true, false, Option, none, some,
  List, [], ◌∷◌, arith, if◌then◌else◌, All, All-append, get_elem?, leb, length, Bool-cases,
  Option-cases, inl, inr,
}
use delta_agents.Cost.{is_over_budget}
use delta_agents.Scores.{Scores}
use delta_agents.Types.{Message}
use delta_agents.State.{Snapshot, Task, parent_over}
use delta_agents.Host.{Host}
use delta_agents.Supervision.{SlotResult, granted, queued}
use delta_agents.Scheduler.Runner.{DelegationRequest, StepOutcome, Runner, make_runner}
use delta_agents.Scheduler.Run.{
  Runtime, Run, with_store, with_runners, read_clock, new_id, set_status,
}
use delta_agents.Scheduler.Run.Kept.{IsReported, IsReported-IsKept, All-update_at, settle-Holds}
use delta_agents.Scheduler.Loop.{
  take_slot, with_slot, seat_child, admit_child, handle_delegate, fold_in, drain, finish,
  after_work, fresh_messages, follow, stepped_to, take_step, advance_by, turn_of, turn, pass,
  all_settled, loop,
}

module _ {F : Scores} {H : Host} {R : Runtime F H} where
  abbrev pub Reports : Run F H R → Type 0
  Reports run = All IsReported run.runners

  take_slot-Reports :
      (slot : SlotResult) (id parent_id : String) (agent : R.Agent) (parent : Snapshot F.S)
      (child : Task F.S)
      → (run : Run F H R) → Reports run
      → Reports (take_slot slot id parent_id agent parent child run)
  unfolding take_slot set_status with_runners with_store read_clock make_runner
  take_slot-Reports (queued t) id parent_id agent parent child run h = h
  take_slot-Reports (granted t) id parent_id agent parent child run h =
      All-append IsReported run.runners _ h (refl, tt)

  admit_child-Reports :
      (i : ℕ) (r : Runner F.S R.Agent) (agent : R.Agent) (d : DelegationRequest) (run : Run F H R)
      → Reports run
      → Reports (admit_child i r agent d run)
  unfolding admit_child seat_child with_slot with_runners with_store new_id read_clock
  admit_child-Reports i r agent d run h =
      take_slot-Reports _ _ _ _ _ _ _ (All-update_at IsReported run.runners i _ (λ p k. k) h)

  handle_delegate-Reports :
      (i : ℕ) (r : Runner F.S R.Agent) (d : DelegationRequest) (run : Run F H R)
      → Reports run
      → Reports (handle_delegate i r d run)
  unfolding handle_delegate
  handle_delegate-Reports i r d run h = elim (Option-cases (R.get_agent d.agent_name)) [
    | inl unknown ↦
        rw (unknown, handle_delegate) (settle-Holds IsReported IsReported-IsKept i r _ _ run refl h)
    | inr (agent, known) ↦ rw (known, handle_delegate) (admit_child-Reports i r agent d run h)
  ]

  finish-Reports :
      (i : ℕ) (r : Runner F.S R.Agent) (run : Run F H R) → Reports run → Reports (finish i r run)
  unfolding finish
  finish-Reports i r run h = elim (Bool-cases (is_over_budget r.snapshot.spent r.snapshot.budget)) [
    | inl over ↦ rw over (settle-Holds IsReported IsReported-IsKept i r _ _ run refl h)
    | inr within ↦
        rw within
          (elim (Bool-cases (parent_over r.snapshot.parent_budget r.snapshot.parent_spent)) [
            | inl over ↦ rw over (settle-Holds IsReported IsReported-IsKept i r _ _ run refl h)
            | inr fine ↦ rw fine (settle-Holds IsReported IsReported-IsKept i r _ _ run refl h)
          ])
  ]

  after_work-Reports :
      (fresh : List Message) (i : ℕ) (r : Runner F.S R.Agent) (run : Run F H R)
      → Reports run
      → Reports (after_work fresh i r run)
  unfolding after_work drain fold_in with_runners with_store new_id read_clock
  after_work-Reports [] i r run h = finish-Reports i r run h
  after_work-Reports (m ∷ ms) i r run h = All-update_at IsReported run.runners i _ (λ p k. k) h

  follow-Reports :
      (outcome : StepOutcome F.S) (i : ℕ) (r : Runner F.S R.Agent) (run : Run F H R)
      → Reports run
      → Reports (follow outcome i r run)
  unfolding follow
  follow-Reports (StepOutcome.stepped s) i r run h = h
  follow-Reports (StepOutcome.delegate s d) i r run h = handle_delegate-Reports i r d run h
  follow-Reports (StepOutcome.blocked s why) i r run h =
      settle-Holds IsReported IsReported-IsKept i r _ _ run refl h
  follow-Reports (StepOutcome.failed s why) i r run h =
      settle-Holds IsReported IsReported-IsKept i r _ _ run refl h
  follow-Reports (StepOutcome.natural_done s) i r run h =
      after_work-Reports (fresh_messages r run) i r run h

  advance_by-Reports :
      (settled at_limit : Bool) (i : ℕ) (r : Runner F.S R.Agent) (run : Run F H R)
      → Reports run
      → Reports (advance_by settled at_limit i r run)
  unfolding advance_by take_step stepped_to
  advance_by-Reports true at_limit i r run h = h
  advance_by-Reports false true i r run h =
      settle-Holds IsReported IsReported-IsKept i r _ _ run refl h
  advance_by-Reports false false i r run h =
      follow-Reports _ i _ _ (All-update_at IsReported run.runners i _ (λ p k. k) h)

  turn_of-Reports :
      (found : Option (Runner F.S R.Agent)) (i : ℕ) (run : Run F H R)
      → Reports run
      → Reports (turn_of found i run)
  unfolding turn_of
  turn_of-Reports none i run h = h
  turn_of-Reports (some r) i run h = advance_by-Reports r.settled (leb r.max_steps r.step) i r run h

  pass-Reports : (n i : ℕ) (run : Run F H R) → Reports run → Reports (pass n i run)
  unfolding pass turn
  pass-Reports zero i run h = h
  pass-Reports (suc n) i run h =
      pass-Reports n (suc i) (turn i run) (turn_of-Reports (get_elem? run.runners i) i run h)

  Finished : Run F H R → Type 0
  Finished end = Reports end × (all_settled end ≡ true)

  -- the run that the loop returns is this one, or that of the rest of the loop
  stops :
      (settled : Bool) (run end : Run F H R) (rest : Option (Run F H R))
      → all_settled run ≡ settled
      → Reports run
      → (if settled then some run else rest) ≡ some end
      → (rest ≡ some end → Finished end)
      → Finished end
  unfolding Finished
  stops true run end rest done h e later =
      subst (λ x. Reports x × (all_settled x ≡ true)) (ap (λ o. or_else o run) e) (h, done)
  stops false run end rest open_still h e later = later e

  loop-suc :
      (fuel : ℕ) (run : Run F H R)
      → (if all_settled run then some run else loop fuel (pass (length run.runners) 0 run))
        ≡ loop (suc fuel) run
  unfolding loop
  loop-suc fuel run = elim (Bool-cases (all_settled run)) [
    | inl done ↦ rw (done, loop) refl
    | inr open_still ↦ rw (open_still, loop) refl
  ]

  -- When the loop ends, every runner has the result with which it settled.
  pub loop-Reports :
      (fuel : ℕ) (run end : Run F H R)
      → Reports run
      → loop fuel run ≡ some end
      → Reports end × (all_settled end ≡ true)
  unfolding loop Finished
  loop-Reports zero run end h e =
      stops (all_settled run) run end none refl h e (λ never. absurd (ground arith))
  loop-Reports (suc fuel) run end h e =
      let next = pass (length run.runners) 0 run in
      stops (all_settled run) run end (loop fuel next) refl h (loop-suc fuel run ∙ e)
        (λ later. loop-Reports fuel next end (pass-Reports (length run.runners) 0 run h) later)
