-- ===== src/Prelude/Results.antt =====
-- `Result<A, E>` with an error type of the call's own.
pub data Result {ℓ κ} (E : Type ℓ) (A : Type κ) : Type (ℓ ⊔ κ) where
  ok : A → Result E A
  err : E → Result E A
