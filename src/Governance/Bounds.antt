-- ===== src/Governance/Bounds.antt =====
-- What one update of trust and of risk can do (governance/trust.ts, risk.ts), whatever the rounding.
use delta_agents.Common.{ℕ, ◌≡◌, refl, true, arith}
use delta_agents.Scores.{Scores, ScoreLaws}
use delta_agents.Types.{RiskState, TrustState}
use delta_agents.Governance.{
  TrustUpdateOutcome, success, failure, surprise, zero_score, one_score, clamp, update_trust,
  Evidence, update_risk,
}

module _ (F : Scores) (L : ScoreLaws F) where
  open F use {S, milli, add, sub, mul, min, max, le}
  open L use {
    le_refl, le_trans, milli_mono, min_left, min_right, min_glb, max_left, max_right, max_lub,
    sub_nonneg, sub_shrinks, add_grows, mul_nonneg, mul_shrinks,
  }

  -- a score between 0 and 1
  pub record InUnit (x : S) : Type 0 where
    pub lower : le (zero_score F) x ≡ true
    pub upper : le x (one_score F) ≡ true

  nonneg : (n : ℕ) → le (milli 0) (milli n) ≡ true
  nonneg n = milli_mono 0 n (omega arith)

  clamp-InUnit : (x : S) → InUnit (clamp F x)
  clamp-InUnit x = record {
    lower = max_left (milli 0) (min (milli 1000) x);
    upper =
        max_lub (milli 0) (min (milli 1000) x) (milli 1000) (nonneg 1000) (min_left (milli 1000) x);
  }

  -- `score * (1 - rate)` is between 0 and the score, for a rate that is at least 0
  decayed_shrinks :
      (x rate : S)
      → InUnit x
      → le (milli 0) rate ≡ true
      → le (max (milli 0) (mul x (sub (milli 1000) rate))) x ≡ true
  decayed_shrinks x rate u h =
      max_lub (milli 0) (mul x (sub (milli 1000) rate)) x u.lower
        (mul_shrinks x (sub (milli 1000) rate) u.lower (sub_shrinks (milli 1000) rate h))

  decayed-InUnit :
      (x rate : S)
      → InUnit x
      → le (milli 0) rate ≡ true
      → InUnit (max (milli 0) (mul x (sub (milli 1000) rate)))
  decayed-InUnit x rate u h = record {
    lower = max_left (milli 0) (mul x (sub (milli 1000) rate));
    upper =
        le_trans (max (milli 0) (mul x (sub (milli 1000) rate))) x (milli 1000)
          (decayed_shrinks x rate u h) u.upper;
  }

  surprise_rate : S → S
  surprise_rate m = mul (milli 400) (add (milli 500) (mul (milli 500) (clamp F m)))

  surprise_rate_nonneg : (m : S) → le (milli 0) (surprise_rate m) ≡ true
  unfolding surprise_rate
  surprise_rate_nonneg m =
      let scaled = mul_nonneg (milli 500) (clamp F m) (nonneg 500) (clamp-InUnit m).lower in
      mul_nonneg (milli 400) (add (milli 500) (mul (milli 500) (clamp F m))) (nonneg 400) (
        le_trans (milli 0) (milli 500) (add (milli 500) (mul (milli 500) (clamp F m))) (nonneg 500)
          (add_grows (milli 500) (mul (milli 500) (clamp F m)) scaled))

  gain : S → S
  gain x = mul (milli 50) (sub (milli 1000) x)

  success_grows : (x : S) → InUnit x → le x (add x (gain x)) ≡ true
  unfolding gain
  success_grows x u =
      add_grows x (mul (milli 50) (sub (milli 1000) x))
        (mul_nonneg (milli 50) (sub (milli 1000) x) (nonneg 50) (sub_nonneg (milli 1000) x u.upper))

  -- The new score compared with the old one, by outcome.
  abbrev pub Moves : TrustUpdateOutcome → S → S → Type 0
  Moves success old new = le old new ≡ true
  Moves failure old new = le new old ≡ true
  Moves surprise old new = le new old ≡ true

  -- For numbers with the order laws, whatever the outcome, a trust score in [0, 1] stays there; a success never lowers it, and a
  -- failure or a surprise, of any magnitude, never raises it.
  pub update_trust-InUnit :
      (t : TrustState S) (outcome : TrustUpdateOutcome) (magnitude : S)
      → InUnit t.score
      → InUnit (update_trust F t outcome magnitude).score
        × Moves outcome t.score (update_trust F t outcome magnitude).score
  unfolding update_trust gain surprise_rate
  update_trust-InUnit t success m u =
      let grown =
        min_glb (milli 1000) (add t.score (gain t.score)) t.score u.upper
          (success_grows t.score u) in
      (
        record {
          lower =
              le_trans (milli 0) t.score (min (milli 1000) (add t.score (gain t.score))) u.lower
                grown;
          upper = min_left (milli 1000) (add t.score (gain t.score));
        },
        grown,
      )
  update_trust-InUnit t failure m u = (
    decayed-InUnit t.score (milli 250) u (nonneg 250),
    decayed_shrinks t.score (milli 250) u (nonneg 250),
  )
  update_trust-InUnit t surprise m u = (
    decayed-InUnit t.score (surprise_rate m) u (surprise_rate_nonneg m),
    decayed_shrinks t.score (surprise_rate m) u (surprise_rate_nonneg m),
  )

  -- For numbers with the order laws and a declared prior of at most 1: evidence never lowers the risk
  -- below that prior nor raises it above 1, the prediction
  -- stays within 1, and an update changes neither the prior nor the escalation flag.
  pub update_risk_bounds :
      (r : RiskState S) (e : Evidence F)
      → le r.static_risk (one_score F) ≡ true
      → (le r.static_risk (update_risk F r e).current_risk ≡ true)
        × (le (update_risk F r e).current_risk (one_score F) ≡ true)
        × (le (update_risk F r e).predicted_risk (one_score F) ≡ true)
        × ((update_risk F r e).static_risk ≡ r.static_risk)
        × ((update_risk F r e).escalated ≡ r.escalated)
  unfolding update_risk
  update_risk_bounds r e h = (
    max_left r.static_risk _,
    max_lub r.static_risk _ (milli 1000) h (min_left (milli 1000) _),
    min_left (milli 1000) _,
    refl,
    refl,
  )
