-- ===== src/Workflow/Retry.antt =====
-- packages/delta/src/infra/retry-with-jitter.ts: the attempts, over any state `W`. `backoff n` is the
-- wait after attempt `n`, whose length in the program is random.
pub mod Attempts
use delta_agents.Common.{ℕ, zero, suc, ◌+◌, Result, ok, err, ◌≡◌, refl}

after_failure {ℓ} : {W : Type ℓ} → (ℕ → W → W) → ℕ → ℕ → W → W
after_failure backoff zero attempt w = w
after_failure backoff (suc left) attempt w = backoff attempt w

module _ {ℓ} {E A : Type 0} {W : Type ℓ} where
  -- `left` attempts are left, the next one is `attempt`
  pub retry_from : (W → Result E A × W) → (ℕ → W → W) → (left attempt : ℕ) → E → W → Result E A × W
  unfolding after_failure
  retry_from fn backoff zero attempt last_error w = (err last_error, w)
  retry_from fn backoff (suc left) attempt last_error w =
      let (result, w') = fn w in
      elim result [
        | ok a ↦ (ok a, w')
        | err e ↦ retry_from fn backoff left (suc attempt) e (after_failure backoff left attempt w')
      ]

  pub retry_with_jitter : (W → Result E A × W) → (ℕ → W → W) → ℕ → E → W → Result E A × W
  unfolding retry_from
  retry_with_jitter fn backoff max_attempts no_error w =
      retry_from fn backoff max_attempts 1 no_error w
