-- ===== src/Scheduler/Loop/Ends.antt =====
-- The round-robin loop ends (engine/scheduler.ts): every turn of a runner that is not settled makes the
-- potential of the run smaller, so that as many passes as the potential are enough.
use delta_agents.Common.{
  ℕ, zero, suc, ◌+◌, ◌≤◌, ◌<◌, ◌≡◌, refl, sym, ◌∙◌, subst, Bool, true, false, ◌⊎◌, Option, none,
  some, List, [], ◌∷◌, arith, length, get_elem?, Bool-cases, inl, inr, leb, eqb, all,
}
use delta_agents.Scores.{Scores}
use delta_agents.Host.{Host}
use delta_agents.Scheduler.Runner.{Runner}
use delta_agents.Scheduler.Run.{Runtime, Run}
use delta_agents.Scheduler.Run.Potential.{potential, settle-descends}
use delta_agents.Scheduler.Loop.{advance_by, turn_of, turn, pass, all_settled, loop}
use delta_agents.Scheduler.Loop.Admission.{IsBounded}
use delta_agents.Scheduler.Loop.Falls.{Follows, Falls, take_step-Falls}

module _ {F : Scores} {H : Host} {R : Runtime F H} (left : H.World → ℕ) (b : IsBounded R left) where
  -- A turn makes the potential fall, or leaves the run as it is and the runner is settled.
  Turns : Option (Runner F.S R.Agent) → Run F H R → Run F H R → Type 0
  Turns found run run' =
      Falls left b run run'
      ⊎ (run' ≡ run) × ((r : Runner F.S R.Agent) → found ≡ some r → r.settled ≡ true)

  advance_by-Turns :
      (settled at_limit : Bool) (i : ℕ) (r : Runner F.S R.Agent) (run : Run F H R)
      → get_elem? run.runners i ≡ some r
      → r.settled ≡ settled
      → leb r.max_steps r.step ≡ at_limit
      → Turns (some r) run (advance_by settled at_limit i r run)
  unfolding advance_by Turns
  advance_by-Turns true at_limit i r run at done late = inr (refl, λ x e. ground arith)
  advance_by-Turns false true i r run at still late =
      inl (settle-descends left b.steady i r r _ _ run at still)
  advance_by-Turns false false i r run at still early =
      inl (take_step-Falls left b i r run at still (ground arith))

  turn_of-Turns :
      (found : Option (Runner F.S R.Agent)) (i : ℕ) (run : Run F H R)
      → get_elem? run.runners i ≡ found
      → Turns found run (turn_of found i run)
  unfolding turn_of Turns
  turn_of-Turns none i run at = inr (refl, λ r e. absurd (ground arith))
  turn_of-Turns (some r) i run at =
      advance_by-Turns r.settled (leb r.max_steps r.step) i r run at refl refl

  turn-Turns : (i : ℕ) (run : Run F H R) → Turns (get_elem? run.runners i) run (turn i run)
  unfolding turn
  turn-Turns i run = turn_of-Turns (get_elem? run.runners i) i run refl

  same-Follows : (x y z : Run F H R) → y ≡ x → Follows left b 0 y z → Follows left b 0 x z
  same-Follows x y z e h = subst (λ w. Follows left b 0 w z) e h

  pass-Follows : (n i : ℕ) (run : Run F H R) → Follows left b 0 run (pass n i run)
  unfolding pass Turns
  pass-Follows zero i run = (refl, omega arith)
  pass-Follows (suc n) i run =
      let rest = pass-Follows n (suc i) (turn i run) in
      elim (turn-Turns i run) [
        | inl (same, less) ↦ (rest.0 ∙ same, omega (arith, rest.1, less))
        | inr (same, done) ↦ same-Follows run (turn i run) (pass n (suc i) (turn i run)) same rest
      ]

  AllDone : ℕ → ℕ → Run F H R → Type 0
  AllDone n i run =
      (j : ℕ) (r : Runner F.S R.Agent)
      → i ≤ j
      → j < i + n
      → get_elem? run.runners j ≡ some r
      → r.settled ≡ true

  one_more :
      (n i : ℕ) (run : Run F H R)
      → ((r : Runner F.S R.Agent) → get_elem? run.runners i ≡ some r → r.settled ≡ true)
      → AllDone n (suc i) run
      → AllDone (suc n) i run
  unfolding AllDone
  one_more n i run first rest j r low high at = elim (Bool-cases (eqb i j)) [
    | inl same ↦
        let e : i ≡ j = ground arith in
        first r (subst (λ k. get_elem? run.runners k ≡ some r) (sym e) at)
    | inr other ↦ rest j r (ground arith) (omega arith) at
  ]

  nothing_left : (i : ℕ) (run : Run F H R) → AllDone zero i run
  unfolding AllDone
  nothing_left i run j r low high at = absurd (omega (arith, low, high))

  -- a pass that does not make the potential smaller has found every runner settled
  pass-Falls : (n i : ℕ) (run : Run F H R) → Falls left b run (pass n i run) ⊎ AllDone n i run
  unfolding pass Turns
  pass-Falls zero i run = inr (nothing_left i run)
  pass-Falls (suc n) i run = elim (turn-Turns i run) [
    | inl (same, less) ↦
        let rest = pass-Follows n (suc i) (turn i run) in
        inl (rest.0 ∙ same, omega (arith, rest.1, less))
    | inr (same, done) ↦ elim (pass-Falls n (suc i) (turn i run)) [
      | inl falls ↦ inl (subst (λ w. Falls left b w (pass n (suc i) (turn i run))) same falls)
      | inr all ↦ inr (one_more n i run done (subst (AllDone n (suc i)) same all))
    ]
  ]

  done_or_open :
      (rs : List (Runner F.S R.Agent))
      → ((j : ℕ) (r : Runner F.S R.Agent)
          → j < length rs
          → get_elem? rs j ≡ some r
          → r.settled ≡ true)
      → all (λ r. r.settled) rs ≡ true
  done_or_open [] h = refl
  done_or_open (r ∷ rs) h =
      rw (h 0 r (omega arith) refl)
        (done_or_open rs (λ j x early at. h (suc j) x (omega (arith, early)) at))

  pass-ends :
      (run : Run F H R)
      → Falls left b run (pass (length run.runners) 0 run) ⊎ (all_settled run ≡ true)
  unfolding AllDone all_settled
  pass-ends run = elim (pass-Falls (length run.runners) 0 run) [
    | inl falls ↦ inl falls
    | inr done ↦ inr (
        done_or_open run.runners (λ j r early at. done j r (omega arith) (omega (arith, early)) at))
  ]

  -- Where the potential of a run is within the fuel, the loop ends, with every runner settled.
  pub loop-ends :
      (fuel : ℕ) (run : Run F H R)
      → potential left run ≤ fuel
      → (end : Run F H R) × (loop fuel run ≡ some end)
        × (all_settled end ≡ true)
        × (end.root_id ≡ run.root_id)
  unfolding loop
  loop-ends zero run h = elim (pass-ends run) [
    | inl (same, less) ↦ absurd (omega (arith, h, less))
    | inr done ↦ rw done (run, refl, done, refl)
  ]
  loop-ends (suc fuel) run h = elim (Bool-cases (all_settled run)) [
    | inl done ↦ rw (done, loop) (run, refl, done, refl)
    | inr open_still ↦ elim (pass-ends run) [
      | inr done ↦ absurd (ground arith)
      | inl (same, less) ↦
          rw (open_still, loop)
            (let (end, runs, settled, root) =
                loop-ends fuel (pass (length run.runners) 0 run) (omega (arith, h, less)) in
              (end, runs, settled, root ∙ same))
    ]
  ]
