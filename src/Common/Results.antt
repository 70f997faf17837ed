-- ===== src/Common/Results.antt =====
-- The `Result` of slang-ts: `Ok` and `Err`. Error texts are data types of the modules that make them.
pub data Result {ℓ} (E A : Type ℓ) : Type ℓ where
  ok : A → Result E A
  err : E → Result E A
