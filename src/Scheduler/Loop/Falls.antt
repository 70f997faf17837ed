-- ===== src/Scheduler/Loop/Falls.antt =====
-- A step of a runner that is not settled makes the potential of the run smaller (engine/scheduler.ts).
use delta_agents.Common.{
  ℕ, zero, suc, ◌+◌, ◌*◌, ◌≤◌, ◌<◌, ◌≡◌, refl, false, Option, some, List, [], ◌∷◌, arith,
  if◌then◌else◌, get_elem?, Bool-cases, Option-cases, inl, inr,
}
use delta_agents.Cost.{is_over_budget}
use delta_agents.Scores.{Scores}
use delta_agents.Types.{Message}
use delta_agents.State.{parent_over}
use delta_agents.Host.{Host}
use delta_agents.LoopDetector.{reset_phase}
use delta_agents.Scheduler.Runner.{
  DelegationRequest, StepOutcome, outcome_snapshot, SendStatus, StopReason, Runner,
}
use delta_agents.Scheduler.Run.{Runtime, Run, update_at, settle}
use delta_agents.Scheduler.Run.Potential.{
  weights-lighter, potential, Moves, falls_by, settle-descends,
}
use delta_agents.Scheduler.Loop.{
  handle_delegate, finish, after_work, fresh_messages, follow, same_phase, refresh, stepped_to,
  take_step,
}
use delta_agents.Scheduler.Loop.Admission.{IsBounded, delegations, admit_child-Moves, drain-Moves}

module _ {F : Scores} {H : Host} {R : Runtime F H} (left : H.World → ℕ) (b : IsBounded R left) where
  -- The root stays, and the potential rises by no more than a delegation's.
  abbrev pub Follows : ℕ → Run F H R → Run F H R → Type 0
  Follows n run run' =
      (run'.root_id ≡ run.root_id)
      × (potential left run' ≤ potential left run + suc R.max_steps * n)

  of_Moves : (run run' : Run F H R) → Moves left 0 run run' → Follows 0 run run'
  of_Moves run run' m = (m.root, omega (arith, m.bounded))

  -- the runner at the position is not settled, so to settle it is within every bound
  settle-Follows :
      (n i : ℕ) (r old : Runner F.S R.Agent) (status : SendStatus) (reason : Option StopReason)
      (run : Run F H R)
      → get_elem? run.runners i ≡ some old
      → old.settled ≡ false
      → Follows n run (settle i r status reason run)
  settle-Follows n i r old status reason run at still =
      let (root, less) = settle-descends left b.steady i r old status reason run at still in
      (root, omega (arith, less))

  finish-Follows :
      (i : ℕ) (r old : Runner F.S R.Agent) (run : Run F H R)
      → get_elem? run.runners i ≡ some old
      → old.settled ≡ false
      → Follows 0 run (finish i r run)
  unfolding finish
  finish-Follows i r old run at still =
      elim (Bool-cases (is_over_budget r.snapshot.spent r.snapshot.budget)) [
        | inl over ↦ rw over (settle-Follows 0 i r old _ _ run at still)
        | inr within ↦
            rw within
              (elim (Bool-cases (parent_over r.snapshot.parent_budget r.snapshot.parent_spent)) [
                | inl over ↦ rw over (settle-Follows 0 i r old _ _ run at still)
                | inr fine ↦ rw fine (settle-Follows 0 i r old _ _ run at still)
              ])
      ]

  after_work-Follows :
      (fresh : List Message) (i : ℕ) (r old : Runner F.S R.Agent) (run : Run F H R)
      → get_elem? run.runners i ≡ some old
      → old.settled ≡ false
      → Follows 0 run (after_work fresh i r run)
  unfolding after_work
  after_work-Follows [] i r old run at still = finish-Follows i r old run at still
  after_work-Follows (m ∷ ms) i r old run at still =
      of_Moves run _ (drain-Moves left b i r (m ∷ ms) run)

  handle_delegate-Follows :
      (i : ℕ) (r old : Runner F.S R.Agent) (d : DelegationRequest) (run : Run F H R)
      → get_elem? run.runners i ≡ some old
      → old.settled ≡ false
      → Follows 1 run (handle_delegate i r d run)
  unfolding handle_delegate
  handle_delegate-Follows i r old d run at still = elim (Option-cases (R.get_agent d.agent_name)) [
    | inl unknown ↦ rw (unknown, handle_delegate) (settle-Follows 1 i r old _ _ run at still)
    | inr (agent, known) ↦
        rw (known, handle_delegate)
          (let m = admit_child-Moves left b i r agent d run in (m.root, omega (arith, m.bounded)))
  ]

  follow-Follows :
      (outcome : StepOutcome F.S) (i : ℕ) (r old : Runner F.S R.Agent) (run : Run F H R)
      → get_elem? run.runners i ≡ some old
      → old.settled ≡ false
      → Follows (delegations outcome) run (follow outcome i r run)
  unfolding follow
  follow-Follows (StepOutcome.stepped s) i r old run at still = (refl, omega arith)
  follow-Follows (StepOutcome.delegate s d) i r old run at still =
      handle_delegate-Follows i r old d run at still
  follow-Follows (StepOutcome.blocked s why) i r old run at still =
      settle-Follows 0 i r old _ _ run at still
  follow-Follows (StepOutcome.failed s why) i r old run at still =
      settle-Follows 0 i r old _ _ run at still
  follow-Follows (StepOutcome.natural_done s) i r old run at still =
      after_work-Follows (fresh_messages r run) i r old run at still

  get_elem?-update_at :
      (rs : List (Runner F.S R.Agent)) (i : ℕ) (f : Runner F.S R.Agent → Runner F.S R.Agent)
      → (r : Runner F.S R.Agent) → get_elem? rs i ≡ some r
      → get_elem? (update_at rs i f) i ≡ some (f r)
  get_elem?-update_at [] i f r e = absurd (ground arith)
  get_elem?-update_at (x ∷ rs) zero f r e = ground arith
  get_elem?-update_at (x ∷ rs) (suc i) f r e = get_elem?-update_at rs i f r e

  -- the root stays, and the potential falls
  abbrev pub Falls : Run F H R → Run F H R → Type 0
  Falls run run' = (run'.root_id ≡ run.root_id) × (potential left run' < potential left run)

  pub take_step-Falls :
      (i : ℕ) (r : Runner F.S R.Agent) (run : Run F H R)
      → get_elem? run.runners i ≡ some r
      → r.settled ≡ false
      → r.step < r.max_steps
      → Falls run (take_step i r run)
  unfolding take_step stepped_to
  take_step-Falls i r run at still early =
      let seen = refresh r.task.parent_id run.runners r.snapshot in
      let (outcome, d, e) = R.step_task r.task r.agent seen r.step (run.detector, run.engine) in
      let s = outcome_snapshot outcome in
      let d' =
        if same_phase s.current_phase r.previous_phase
        then d
        else reset_phase (R.name_of r.agent) d in
      let run1 : Run F H R = record run {
        runners = update_at run.runners i (stepped_to s);
        detector = d';
        engine = e;
      } in
      let lighter = weights-lighter run.runners i (stepped_to s) r at (ground arith) in
      let spent = b.spends r.task r.agent seen r.step run.detector run.engine in
      let same = b.trees r.task r.agent seen r.step run.detector run.engine run.root_id in
      let at1 = get_elem?-update_at run.runners i (stepped_to s) r at in
      let (root, bounded) =
        follow-Follows outcome i (stepped_to s r) (stepped_to s r) run1 at1 still in
      (
        root,
        falls_by left (delegations outcome) run run1 (follow outcome i (stepped_to s r) run1)
            lighter (rw same (omega (arith, spent))) bounded,
      )
