-- ===== src/StableOption.antt =====
-- The enum of src/option.rs.

-- `option::Option<T>`, the option of the library with a stable representation.
pub data StableOption {ℓ} (T : Type ℓ) : Type ℓ where
  none : StableOption T
  some : T → StableOption T
