-- ===== src/Workflow/Retry/Attempts.antt =====
-- How many attempts a retry makes, and what it returns (infra/retry-with-jitter.ts).
use delta_agents.Common.{ℕ, zero, suc, ◌+◌, ◌≤◌, ◌<◌, ◌≡◌, subst, sym, refl, Result, ok, err, arith}
use delta_agents.Workflow.Retry.{after_failure, retry_from, retry_with_jitter}

-- the outcome of an attempt, and what may be said of it
abbrev pub WhenOk : {E A W : Type 0} → (A → W → Type 0) → Result E A × W → Type 0
WhenOk P (ok a, w) = P a w
WhenOk P (err e, w) = Unit

-- a function that counts its calls
abbrev pub counting : {E A W : Type 0} → (W → Result E A × W) → W × ℕ → Result E A × (W × ℕ)
counting fn (w, n) = let (r, w') = fn w in (r, (w', suc n))

abbrev pub waiting : {W : Type 0} → (ℕ → W → W) → ℕ → W × ℕ → W × ℕ
waiting backoff attempt (w, n) = (backoff attempt w, n)

abbrev pub CallsWithin : {E A W : Type 0} → ℕ → ℕ → Result E A × (W × ℕ) → Type 0
CallsWithin n most (ok a, (w, calls)) = (n < calls) × (calls ≤ most)
CallsWithin n most (err e, (w, calls)) = calls ≡ most

module _ {E A W : Type 0} where
  -- what follows one attempt
  continue :
      (W → Result E A × W) → (ℕ → W → W) → (left attempt : ℕ) → Result E A × W → Result E A × W
  continue fn backoff left attempt (ok a, w) = (ok a, w)
  continue fn backoff left attempt (err e, w) =
      retry_from fn backoff left (suc attempt) e (after_failure backoff left attempt w)

  retry_from-continue :
      (fn : W → Result E A × W) (backoff : ℕ → W → W) (left attempt : ℕ) (last : E) (w : W)
      → retry_from fn backoff (suc left) attempt last w ≡ continue fn backoff left attempt (fn w)
  unfolding retry_from continue
  retry_from-continue fn backoff left attempt last w = folded (fn w)
    where
      folded :
          (out : Result E A × W)
          → (elim out.0 [
            | ok a ↦ (ok a, out.1)
            | err e ↦
                retry_from fn backoff left
                  (suc attempt)
                  e
                  (after_failure backoff left attempt out.1)
          ])
            ≡ continue fn backoff left attempt out
      folded (ok a, w') = refl
      folded (err e, w') = refl

  continue-WhenOk :
      (P : A → W → Type 0) (fn : W → Result E A × W) (backoff : ℕ → W → W) (left attempt : ℕ)
      (out : Result E A × W)
      → WhenOk P out
      → ((e : E) (w : W) → WhenOk P (retry_from fn backoff left (suc attempt) e w))
      → WhenOk P (continue fn backoff left attempt out)
  unfolding continue
  continue-WhenOk P fn backoff left attempt (ok a, w) h rest = h
  continue-WhenOk P fn backoff left attempt (err e, w) h rest =
      rest e (after_failure backoff left attempt w)

  retry_from-WhenOk :
      (P : A → W → Type 0) (fn : W → Result E A × W) (backoff : ℕ → W → W)
      → ((w : W) → WhenOk P (fn w))
      → (left attempt : ℕ) (last : E) (w : W) → WhenOk P (retry_from fn backoff left attempt last w)
  unfolding retry_from
  retry_from-WhenOk P fn backoff h zero attempt last w = tt
  retry_from-WhenOk P fn backoff h (suc left) attempt last w =
      subst (WhenOk P) (sym (retry_from-continue fn backoff left attempt last w)) (
        continue-WhenOk P fn backoff left attempt (fn w) (h w)
          (λ e w'. retry_from-WhenOk P fn backoff h left (suc attempt) e w'))

  -- What every successful attempt guarantees, a successful retry guarantees.
  pub retry_with_jitter-WhenOk :
      (P : A → W → Type 0) (fn : W → Result E A × W) (backoff : ℕ → W → W)
      → ((w : W) → WhenOk P (fn w))
      → (max_attempts : ℕ) (no_error : E) (w : W)
      → WhenOk P (retry_with_jitter fn backoff max_attempts no_error w)
  unfolding retry_with_jitter
  retry_with_jitter-WhenOk P fn backoff h max_attempts no_error w =
      retry_from-WhenOk P fn backoff h max_attempts 1 no_error w

module _ {E A W : Type 0} where
  CallsWithin-earlier :
      (n left : ℕ) (out : Result E A × (W × ℕ))
      → CallsWithin (suc n) (suc n + left) out
      → CallsWithin n (n + suc left) out
  CallsWithin-earlier n left (ok a, (w, calls)) h = ground arith
  CallsWithin-earlier n left (err e, (w, calls)) h = ground arith

  continue-calls :
      (fn : W → Result E A × W) (backoff : ℕ → W → W) (left attempt n : ℕ) (out : Result E A × W)
      → ((attempt : ℕ) (e : E) (w : W)
          → CallsWithin
              (suc n)
              (suc n + left)
              (retry_from (counting fn) (waiting backoff) left attempt e (w, suc n)))
      → CallsWithin n
          (n + suc left)
          (continue (counting fn) (waiting backoff) left attempt (out.0, (out.1, suc n)))
  unfolding continue after_failure
  continue-calls fn backoff left attempt n (ok a, w) rest = ground arith
  continue-calls fn backoff zero attempt n (err e, w) rest =
      CallsWithin-earlier n 0
        (retry_from (counting fn) (waiting backoff) 0 (suc attempt) e (w, suc n))
        (rest (suc attempt) e w)
  continue-calls fn backoff (suc left) attempt n (err e, w) rest =
      let w' = backoff attempt w in
      CallsWithin-earlier n (suc left)
        (retry_from (counting fn) (waiting backoff) (suc left) (suc attempt) e (w', suc n))
        (rest (suc attempt) e w')

  retry_from-calls :
      (fn : W → Result E A × W) (backoff : ℕ → W → W) (left attempt : ℕ) (last : E) (w : W) (n : ℕ)
      → CallsWithin n
          (n + left)
          (retry_from (counting fn) (waiting backoff) left attempt last (w, n))
  unfolding retry_from
  retry_from-calls fn backoff zero attempt last w n = ground arith
  retry_from-calls fn backoff (suc left) attempt last w n =
      subst (CallsWithin n (n + suc left))
        (sym (retry_from-continue (counting fn) (waiting backoff) left attempt last (w, n)))
        (continue-calls fn backoff left attempt n (fn w)
          (λ attempt' e w'. retry_from-calls fn backoff left attempt' e w' (suc n)))

  -- A retry calls its function at least once and at most `max_attempts` times where it succeeds, and
  -- exactly `max_attempts` times where it fails.
  pub retry_with_jitter-calls :
      (fn : W → Result E A × W) (backoff : ℕ → W → W) (max_attempts : ℕ) (no_error : E) (w : W)
      → CallsWithin 0 max_attempts
          (retry_with_jitter (counting fn) (waiting backoff) max_attempts no_error (w, 0))
  unfolding retry_with_jitter
  retry_with_jitter-calls fn backoff max_attempts no_error w =
      let count : 0 + max_attempts ≡ max_attempts = omega arith in
      subst
        (λ m.
          CallsWithin 0 m
            (retry_from (counting fn) (waiting backoff) max_attempts 1 no_error (w, 0)))
        count (retry_from-calls fn backoff max_attempts 1 no_error w 0)
