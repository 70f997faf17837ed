-- ===== src/Workflow/RunPhase/Limit.antt =====
-- The limit of 100 steps does not end a phase whose routing only goes forward (workflow/run-phase.ts).
use delta_agents.Common.{
  ℕ, zero, suc, ◌+◌, ◌≤◌, ◌<◌, ◌≡◌, ◌≢◌, refl, true, All, none, some, arith, length, get_elem?,
  Option-cases, inl, inr, List, [], ◌∷◌,
}
use delta_agents.Scores.{Scores}
use delta_agents.State.{Snapshot}
use delta_agents.Host.{Host}
use delta_agents.Execution.{Engine}
use delta_agents.Workflow.{PhaseResult, ActionRef, Branch, plain, branch}
use delta_agents.Workflow.Routing.{onwards, jumps, resolve_next_step-Proceeds}
use delta_agents.Workflow.Extends.{Extends-refl}
use delta_agents.Workflow.PhaseEnd.{Cursor, PhaseRun, StepResult, finished, again, is_plain}
use delta_agents.Workflow.RunPhase
use delta_agents.Workflow.RunPhase.Routes.{IsForward, IsStep}
use delta_agents.Workflow.RunPhase.Steps.{phase_step-IsStep}

past_end : {A : Type 0} (xs : List A) (i : ℕ) → length xs ≤ i → get_elem? xs i ≡ none
past_end [] i h = refl
past_end (x ∷ xs) zero h = absurd (omega (arith, h))
past_end (x ∷ xs) (suc i) h = past_end xs i (omega arith)

module _ (F : Scores) (H : Host) where
  open F use {S}

  next_same :
      (base : Snapshot S) (r : PhaseRun F H) (index : ℕ)
      (go go' : Cursor F H → Engine F H → PhaseResult S × Engine F H)
      (out : StepResult F H × Engine F H)
      → IsForward F H r.input.phase.actions
      → ((c : Cursor F H) (e : Engine F H) → index < c.index → go c e ≡ go' c e)
      → IsStep F H base r index out
      → ◌≡◌ {A = PhaseResult S × Engine F H}
          (elim out.0 [ finished result ↦ (result, out.1) | again c ↦ go c out.1 ])
          (elim out.0 [ finished result ↦ (result, out.1) | again c ↦ go' c out.1 ])
  next_same base r index go go' (finished result, e) forward same y = refl
  next_same base r index go go' (again c, e) forward same (x, later) = same c e (later forward)

  -- A phase whose transitions all go to a later action runs the same under every limit on its steps that
  -- is above the number of actions that are left: the limit is never what ends it.
  pub phase_loop-IsForward :
      (left limit : ℕ) (r : PhaseRun F H) (c : Cursor F H) (e : Engine F H)
      → IsForward F H r.input.phase.actions
      → length r.input.phase.actions ≤ c.index + left
      → left ≤ limit
      → RunPhase.phase_loop F H (suc left) r c e ≡ RunPhase.phase_loop F H (suc limit) r c e
  unfolding RunPhase.phase_loop
  phase_loop-IsForward zero limit r c e forward enough more =
      rw (past_end r.input.phase.actions c.index (omega (arith, enough)), RunPhase.phase_loop) refl
  phase_loop-IsForward (suc left) zero r c e forward enough more = absurd (omega (arith, more))
  phase_loop-IsForward (suc left) (suc limit) r c e forward enough more =
      elim (Option-cases (get_elem? r.input.phase.actions c.index)) [
        | inl past ↦ rw (past, RunPhase.phase_loop) refl
        | inr (ref, at) ↦
            rw (at, RunPhase.phase_loop)
              (next_same c.state r c.index (RunPhase.phase_loop F H (suc left) r)
                (RunPhase.phase_loop F H (suc limit) r) (RunPhase.phase_step F H ref r c e) forward
                (λ c' e' later.
                  phase_loop-IsForward left limit r c' e' forward (omega (arith, enough, later))
                    (omega (arith, more)))
                (phase_step-IsStep F H ref r c c.state e (Extends-refl c.state)))
      ]

  no_branch_at :
      (actions : List (ActionRef H)) (i : ℕ) (b : Branch H)
      → All (λ ref. is_plain F H ref ≡ true) actions
      → get_elem? actions i ≢ some (branch b)
  no_branch_at [] i b h at = absurd (cc)
  no_branch_at (plain name ∷ rest) zero b h at = absurd (ground arith)
  no_branch_at (branch b' ∷ rest) zero b (p, h) at = absurd (ground arith)
  no_branch_at (ref ∷ rest) (suc i) b (p, h) at = no_branch_at rest i b h at

  -- a list without branches only goes forward
  pub plain-IsForward :
      (actions : List (ActionRef H))
      → All (λ ref. is_plain F H ref ≡ true) actions
      → IsForward F H actions
  plain-IsForward actions h index next result via e =
      elim (resolve_next_step-Proceeds actions index result next via e) [
        | onwards name at fine step below straight ↦ omega (arith, step)
        | jumps b target at declared first jumped ↦ absurd (no_branch_at actions index b h at)
      ]
