-- ===== src/Governance.antt =====
-- packages/delta/src/governance: trust, risk, the health estimate, surprise, cost friction, and the
-- signals of one step. The numbers are those of `Scores`; a literal 0.05 is `milli 50`.
-- A friction signal is modelled without its text, which formats the same numbers.
pub mod Bounds
use delta_agents.Common.{
  ℕ, zero, suc, ◌+◌, String, Bool, true, false, Option, none, some, List, [], ◌∷◌, or_else, length,
  ◌||◌, if◌then◌else◌,
}
use delta_agents.Cost.{Cost, add_costs}
use delta_agents.Scores.{Scores}
use delta_agents.Types.{RiskState, TrustState, KalmanState}

-- types.ts
pub data TrustUpdateOutcome : Type 0 where
  success failure surprise : TrustUpdateOutcome

module _ (F : Scores) where
  open F use {S, milli, of_ℕ, add, sub, mul, div, min, max, abs, le, lt}

  abbrev pub zero_score : S
  zero_score = milli 0

  abbrev pub one_score : S
  one_score = milli 1000

  -- `Math.max(0, Math.min(1, x))`
  abbrev pub clamp : S → S
  clamp x = max zero_score (min one_score x)

  -- trust.ts; the rates are 0.05, 0.25 and 0.40
  unfoldable pub update_trust : TrustState S → TrustUpdateOutcome → S → TrustState S
  update_trust current success surprise_magnitude = record {
    score = min one_score (add current.score (mul (milli 50) (sub one_score current.score)));
    successful_executions = current.successful_executions + 1;
    failed_executions = current.failed_executions;
    surprise_events = current.surprise_events;
  }
  update_trust current failure surprise_magnitude = record {
    score = max zero_score (mul current.score (sub one_score (milli 250)));
    successful_executions = current.successful_executions;
    failed_executions = current.failed_executions + 1;
    surprise_events = current.surprise_events;
  }
  update_trust current surprise surprise_magnitude =
      let clamped = clamp surprise_magnitude in
      let rate = mul (milli 400) (add (milli 500) (mul (milli 500) clamped)) in
      record {
        score = max zero_score (mul current.score (sub one_score rate));
        successful_executions = current.successful_executions;
        failed_executions = current.failed_executions + 1;
        surprise_events = current.surprise_events + 1;
      }

  pub initial_trust : TrustState S
  initial_trust = record {
    score = milli 500;
    successful_executions = 0;
    failed_executions = 0;
    surprise_events = 0;
  }

  unfoldable pub is_trust_degraded : TrustState S → Bool
  is_trust_degraded trust = lt trust.score (milli 300)

  -- risk.ts and kalman-estimator.ts: `risk / 5`
  pub normalise_action_risk : ℕ → S
  normalise_action_risk risk = div (of_ℕ risk) (of_ℕ 5)

  pub initial_risk_state : Option ℕ → RiskState S
  unfolding normalise_action_risk
  initial_risk_state anticipated =
      let base : S = elim anticipated [ none ↦ milli 200 | some r ↦ normalise_action_risk r ] in
      record {
        static_risk = base;
        current_risk = base;
        predicted_risk = base;
        confidence = milli 100;
        escalated = false;
      }

  pub record Evidence : Type 0 where
    pub friction_signal : S
    pub surprise_magnitude : S
    pub recent_failure_rate : S

  unfoldable pub update_risk : RiskState S → Evidence → RiskState S
  update_risk current evidence =
      let evidence_risk =
        add
          (add (mul evidence.friction_signal (milli 300))
            (mul evidence.surprise_magnitude (milli 400)))
          (mul evidence.recent_failure_rate (milli 300)) in
      let blended =
        add (mul current.current_risk (sub one_score (milli 300)))
          (mul evidence_risk (milli 300)) in
      let new_current_risk = max current.static_risk (min one_score blended) in
      record {
        static_risk = current.static_risk;
        current_risk = new_current_risk;
        predicted_risk = min one_score (mul new_current_risk (milli 1150));
        confidence = min (milli 990) (add current.confidence (milli 50));
        escalated = current.escalated;
      }

  unfoldable pub should_escalate : RiskState S → Bool
  should_escalate risk = le (milli 800) risk.current_risk || le (milli 900) risk.predicted_risk

  -- surprise.ts
  pub record SurpriseScore : Type 0 where
    pub magnitude : S
    pub is_significant : Bool

  unfoldable pub compute_surprise : S → S → SurpriseScore
  compute_surprise expected observed =
      let magnitude =
        min one_score (div (abs (sub expected observed)) (add (abs expected) (milli 1))) in
      record { magnitude = magnitude; is_significant = le (milli 400) magnitude }

  -- cost-friction.ts; an axis that the budget does not declare has no ratio
  pub axis_ratio : ℕ → Option ℕ → List S → List S
  axis_ratio spent none rest = rest
  axis_ratio spent (some budget) rest =
      (if le (of_ℕ budget) zero_score then zero_score else div (of_ℕ spent) (of_ℕ budget)) ∷ rest

  pub sum_scores : S → List S → S
  sum_scores acc [] = acc
  sum_scores acc (r ∷ rs) = sum_scores (add acc r) rs

  pub record FrictionSignal : Type 0 where
    pub friction_ratio : S
    pub is_unstable : Bool

  pub average_cost_ratio : Cost → Cost → S
  unfolding axis_ratio sum_scores
  average_cost_ratio spent budget =
      let ratios = axis_ratio spent.tokens (some budget.tokens) (
        axis_ratio spent.duration_ms (some budget.duration_ms) (
          axis_ratio (or_else spent.memory 0) budget.memory
            (axis_ratio (or_else spent.latency 0) budget.latency []))) in
      div (sum_scores zero_score ratios) (of_ℕ (length ratios))

  unfoldable pub detect_friction : Cost → Cost → S → FrictionSignal
  unfolding average_cost_ratio
  detect_friction spent budget progress_ratio =
      let clamped_progress = clamp progress_ratio in
      let average = average_cost_ratio spent budget in
      let ratio = min (milli 10000) (div average clamped_progress) in
      if le average zero_score
      then record { friction_ratio = zero_score; is_unstable = false }
      else if le clamped_progress zero_score
      then record { friction_ratio = milli 10000; is_unstable = true }
      else record { friction_ratio = ratio; is_unstable = le (milli 2500) ratio }

  -- kalman-estimator.ts
  unfoldable pub create_kalman_state : Option ℕ → Bool → KalmanState S
  unfolding normalise_action_risk
  create_kalman_state anticipated has_estimated_cost =
      let estimate : S = elim anticipated [
        | none ↦ one_score
        | some r ↦ mul one_score (sub one_score (mul (normalise_action_risk r) (milli 300)))
      ] in
      record {
        estimate = clamp estimate;
        error_variance = if has_estimated_cost then milli 200 else milli 500;
      }

  unfoldable pub kalman_update : KalmanState S → S → KalmanState S
  kalman_update state observation =
      let predicted_variance = add state.error_variance (milli 10) in
      let gain = div predicted_variance (add predicted_variance (milli 100)) in
      let estimate = add state.estimate (mul gain (sub observation state.estimate)) in
      record {
        estimate = clamp estimate;
        error_variance = max zero_score (mul (sub one_score gain) predicted_variance);
      }

  unfoldable pub compute_health_observation : S → S → S
  compute_health_observation progress_ratio cost_ratio =
      if le cost_ratio zero_score
      then one_score
      else if le progress_ratio zero_score
      then zero_score
      else min one_score (div progress_ratio cost_ratio)

  -- step-signals.ts, with the two axes of `costRatio` (shared/cost.ts) that it reads
  pub cost_ratio_axis : ℕ → ℕ → S
  cost_ratio_axis spent zero = zero_score
  cost_ratio_axis spent (suc budget) = div (of_ℕ spent) (of_ℕ (suc budget))

  pub record StepSignalsInput : Type 0 where
    pub prior_kalman : Option (KalmanState S)
    pub anticipated_risk : Option ℕ
    pub has_estimated_cost : Bool
    pub prior_spent : Cost
    pub actual_cost : Cost
    pub budget : Cost
    pub completed_actions_count : ℕ
    pub step_index : ℕ
    pub fn_succeeded : Bool

  pub record StepSignals : Type 0 where
    pub evidence : Evidence
    pub kalman : KalmanState S
    pub observed_health : S
    pub surprise : SurpriseScore

  unfoldable pub assemble_step_signals : StepSignalsInput → StepSignals
  unfolding cost_ratio_axis
  assemble_step_signals i =
      let prior =
        or_else i.prior_kalman (create_kalman_state i.anticipated_risk i.has_estimated_cost) in
      let total = add_costs i.prior_spent i.actual_cost in
      let progress = div (of_ℕ i.completed_actions_count) (of_ℕ (i.step_index + 1)) in
      let friction = detect_friction total i.budget progress in
      let average =
        div
          (add (cost_ratio_axis total.tokens i.budget.tokens)
            (cost_ratio_axis total.duration_ms i.budget.duration_ms))
          (of_ℕ 2) in
      let observed = compute_health_observation progress average in
      let surprise_score = compute_surprise prior.estimate observed in
      record {
        evidence = record {
          friction_signal = min one_score (div friction.friction_ratio (of_ℕ 10));
          surprise_magnitude = surprise_score.magnitude;
          recent_failure_rate = if i.fn_succeeded then zero_score else one_score;
        };
        kalman = kalman_update prior observed;
        observed_health = observed;
        surprise = surprise_score;
      }
