-- ===== src/Horizon/Boundary.antt =====
-- Where a projection of a horizon stops (governance/value.ts).
use delta_agents.Common.{
  ℕ, ◌+◌, ◌≡◌, refl, ap, ◌∙◌, true, false, none, some, List, [], ◌∷◌, ◌++◌, arith, length, All,
}
use delta_agents.Cost.{Cost, zero_cost, add_costs}
use delta_agents.Horizon.{HorizonStep, Projection, discounted_cost, project_from, project_horizon}

-- no step of the list retrieves external data
abbrev pub IsForeseen : List HorizonStep → Type 0
IsForeseen = All (λ step. step.is_epistemic_boundary ≡ false)

module _ (discounted : ℕ → ℕ → ℕ) where
  -- the tokens of the steps from step `i` on, each discounted by its position
  pub projected_tokens : ℕ → List HorizonStep → ℕ
  projected_tokens i [] = 0
  projected_tokens i (step ∷ rest) =
      discounted i step.estimated_cost.tokens + projected_tokens (i + 1) rest

  project_from-foreseen :
      (steps : List HorizonStep) (i : ℕ) (accumulated : Cost) (taken : ℕ)
      → IsForeseen steps
      → let p = project_from discounted i accumulated taken steps in
        (p.total_projected_cost.tokens ≡ accumulated.tokens + projected_tokens i steps)
        × (p.steps_taken ≡ taken + length steps)
        × (p.boundary ≡ none)
  unfolding project_from projected_tokens add_costs discounted_cost
  project_from-foreseen [] i accumulated taken h = (omega arith, omega arith, refl)
  project_from-foreseen (step ∷ rest) i accumulated taken (known, h) =
      let next = add_costs accumulated (discounted_cost discounted i step.estimated_cost) in
      let (tokens, steps, open_end) = project_from-foreseen rest (i + 1) next (taken + 1) h in
      rw known (omega (arith, tokens), omega (arith, steps), open_end)

  -- the projection that stops at a step
  stopped : HorizonStep → Cost → ℕ → ℕ → Projection
  stopped step accumulated taken k = record {
    total_projected_cost = accumulated;
    steps_taken = taken;
    boundary = some (record { stopped_at = k; action_name = step.action_name });
  }

  project_from-boundary :
      (before : List HorizonStep) (step : HorizonStep) (rest : List HorizonStep) (i : ℕ)
      (accumulated : Cost) (taken : ℕ)
      → IsForeseen before
      → step.is_epistemic_boundary ≡ true
      → project_from discounted i accumulated taken (before ++ (step ∷ rest))
        ≡ record (project_from discounted i accumulated taken before) {
          boundary =
              some (record { stopped_at = i + length before; action_name = step.action_name });
        }
  unfolding project_from stopped
  project_from-boundary [] step rest i accumulated taken h at =
      let same : i ≡ i + 0 = omega arith in rw at (ap (stopped step accumulated taken) same)
  project_from-boundary (s ∷ before) step rest i accumulated taken (known, h) at =
      let next = add_costs accumulated (discounted_cost discounted i s.estimated_cost) in
      let same : i + 1 + length before ≡ i + length (s ∷ before) = omega arith in
      let ends = project_from discounted (i + 1) next (taken + 1) before in
      rw known (
        project_from-boundary before step rest (i + 1) next (taken + 1) h at
        ∙ ap (stopped step ends.total_projected_cost ends.steps_taken) same)

  -- Where the steps before a boundary are foreseen, the projection stops there whatever comes after: it has
  -- the costs and the number of the steps before, whose tokens are discounted by their positions, and names
  -- the boundary at its index. Those steps alone are projected to their end.
  pub project_horizon-boundary :
      (before : List HorizonStep) (step : HorizonStep) (rest : List HorizonStep)
      → IsForeseen before
      → step.is_epistemic_boundary ≡ true
      → let p = project_horizon discounted before in
        (project_horizon discounted (before ++ (step ∷ rest)) ≡ record p {
          boundary = some (record { stopped_at = length before; action_name = step.action_name });
        })
        × (p.total_projected_cost.tokens ≡ projected_tokens 0 before)
        × (p.steps_taken ≡ length before)
        × (p.boundary ≡ none)
  unfolding project_horizon stopped
  project_horizon-boundary before step rest h at =
      let (tokens, steps, open_end) = project_from-foreseen before 0 zero_cost 0 h in
      let same : 0 + length before ≡ length before = omega arith in
      let p = project_horizon discounted before in
      (
        project_from-boundary before step rest 0 zero_cost 0 h at
            ∙ ap (stopped step p.total_projected_cost p.steps_taken) same,
        omega (arith, tokens),
        omega (arith, steps),
        open_end,
      )
