-- ===== src/Reverse.antt =====
-- The conversion of `core::cmp::Reverse` in src/cmp.rs, transparent over that of its value.
pub mod Laws
use co.Prelude.{Option, map_some}
use co.Conv.{Conv, Niche}

-- `struct Reverse`, of values and of carriers.
pub record Reverse {ℓ} (T : Type ℓ) : Type ℓ where
  pub inner : T

-- `Reverse(…)`.
abbrev pub reverse {ℓ} : {T : Type ℓ} → T → Reverse T
reverse t = record { inner = t }

module _ {ℓ κ μ ν} {T : Type ℓ} {C : Type κ} {E : Type μ} {D : Type ν} (v : Conv T C E D) where
  -- `EncodeMove::soft_encode` for `Reverse<T>`.
  unfoldable pub reverse_encode : Reverse T → E → Reverse C × E
  reverse_encode t store = let (c, e) = v.soft_encode t.inner store in (reverse c, e)

  -- `DecodeMove::soft_decode` for `Reverse<T>`.
  unfoldable pub reverse_decode : Reverse C → D → Option (Reverse T) × D
  reverse_decode source store =
      let (t, d) = v.soft_decode source.inner store in (map_some reverse t, d)

  unfoldable pub reverse_conv : Conv (Reverse T) (Reverse C) E D
  unfolding reverse_encode reverse_decode
  reverse_conv = record {
    encode_default = v.encode_default;
    soft_encode = reverse_encode;
    decode_default = v.decode_default;
    soft_decode = reverse_decode;
    is_valid = λ c. v.is_valid c.inner;
  }

-- `Niche for Reverse<T>`.
unfoldable pub reverse_niche {κ} : {C : Type κ} → Niche C → Niche (Reverse C)
reverse_niche n = record { niche = reverse n.niche; is_niche = λ c. n.is_niche c.inner }
