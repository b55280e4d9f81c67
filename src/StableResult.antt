-- ===== src/StableResult.antt =====
-- The enum of src/result.rs.

-- `result::Result<T, E>`, the result of the library with a stable representation.
pub data StableResult {ℓ κ} (T : Type ℓ) (E : Type κ) : Type (ℓ ⊔ κ) where
  ok : T → StableResult T E
  err : E → StableResult T E
