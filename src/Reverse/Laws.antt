-- ===== src/Reverse/Laws.antt =====
-- A reversed value keeps the contracts of the value.
use co.Prelude.{refl, arith}
use co.Conv.{Conv, Niche, IsConv, IsNiche}
use co.Reverse.{reverse_conv, reverse_niche}

module _ {ℓ κ μ ν} {T : Type ℓ} {C : Type κ} {E : Type μ} {D : Type ν} (v : Conv T C E D) where
  pub reverse-IsConv : (law : IsConv v) → IsConv (reverse_conv v)
  unfolding reverse_conv
  reverse-IsConv law = record {
    decode_encode = λ t e d. rw (law.decode_encode t.inner e d) refl;
    decode_valid = λ c d. ground (arith, law.decode_valid c.inner d);
  }

  pub reverse-IsNiche :
      (n : Niche C) (free : IsNiche v n) → IsNiche (reverse_conv v) (reverse_niche n)
  unfolding reverse_conv reverse_niche
  reverse-IsNiche n free = record {
    niche_found = free.niche_found;
    encode_ne_niche = λ t e. free.encode_ne_niche t.inner e;
  }
