-- ===== src/Prelude/Result.antt =====
-- Results of code that may throw, with the error type as a parameter.
pub data Result {ℓ κ} (E : Type κ) (A : Type ℓ) : Type (ℓ ⊔ κ) where
  ok : A → Result E A
  err : E → Result E A
