-- ===== src/Common/Outcome.antt =====
-- Go's (value, error) pairs.
pub data Result {ℓ κ} (E : Type κ) (A : Type ℓ) : Type (ℓ ⊔ κ) where
  ok : A → Result E A
  err : E → Result E A
