-- ===== src/Base/Results.antt =====
-- Go's `(value, error)` results.
pub data Result {ℓ} (E A : Type ℓ) : Type ℓ where
  ok : A → Result E A
  err : E → Result E A
