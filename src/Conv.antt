-- ===== src/Conv.antt =====
-- The conversion traits of src/stored.rs, src/transmute.rs and src/niche.rs as interfaces: what an
-- implementation provides, and the contract that the generated glue relies on.
use co.Prelude.{Bool, true, false, Option, some, is_some, ◌≡◌}

-- `EncodeMove`, `DecodeMove` and `AbiCompatibleValidate` of one Rust type `T` with companion type
-- `C`. `E` and `D` are the two `Store` types, with their `Default` values. A store is a mutable
-- reference, so both conversions return it.
pub record Conv {ℓ κ μ ν} (T : Type ℓ) (C : Type κ) (E : Type μ) (D : Type ν)
    : Type (ℓ ⊔ κ ⊔ μ ⊔ ν) where
  pub encode_default : E
  pub soft_encode : T → E → C × E
  pub decode_default : D
  pub soft_decode : C → D → Option T × D
  pub is_valid : C → Bool

-- `Niche`: a carrier that no value encodes to, and its detector.
pub record Niche {κ} (C : Type κ) : Type κ where
  pub niche : C
  pub is_niche : C → Bool

module _ {ℓ κ μ ν} {T : Type ℓ} {C : Type κ} {E : Type μ} {D : Type ν} where
  -- What every user of a conversion relies on: an encoded value decodes to itself whatever the two
  -- stores held before, and decoding accepts exactly the carriers that validation accepts.
  pub record IsConv (v : Conv T C E D) : Type (ℓ ⊔ κ ⊔ μ ⊔ ν) where
    pub decode_encode : (t : T) (e : E) (d : D) → (v.soft_decode (v.soft_encode t e).0 d).0 ≡ some t
    pub decode_valid : (c : C) (d : D) → is_some (v.soft_decode c d).0 ≡ v.is_valid c

  -- The documented contract of `Niche::is_niche`: it recognises `NICHE` and no carrier produced by
  -- encoding a value.
  pub record IsNiche (v : Conv T C E D) (n : Niche C) : Type (ℓ ⊔ κ ⊔ μ ⊔ ν) where
    pub niche_found : n.is_niche n.niche ≡ true
    pub encode_ne_niche : (t : T) (e : E) → n.is_niche (v.soft_encode t e).0 ≡ false
