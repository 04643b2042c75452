-- ===== src/Base/Exec.antt =====
-- Code that may throw: a value, or the error thrown.
pub data Outcome {ℓ} (E A : Type ℓ) : Type ℓ where
  returned : A → Outcome E A
  thrown : E → Outcome E A
