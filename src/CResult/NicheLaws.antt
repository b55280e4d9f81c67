-- ===== src/CResult/NicheLaws.antt =====
-- The conversions of `Result` through a niche: the conversion contract.
use co.Prelude.{Option, some, ◌≡◌, arith, Result, ok, err}
use co.Conv.{Conv, Niche, IsConv, IsNiche}
use co.CResult.{result_ok_conv, result_err_conv}

module _ {ℓ ℓ' κ μ ν} {T : Type ℓ} {F : Type ℓ'} {C : Type κ} {E : Type μ} {D : Type ν}
    (v : Conv T C E D) (n : Niche C) (default : F) (law : IsConv v) (free : IsNiche v n)
    (zero_sized : (f : F) → default ≡ f) where
  result_ok-decode_encode :
      (t : Result T F) (e : Option E) (d : D)
      → let u = result_ok_conv v n default in (u.soft_decode (u.soft_encode t e).0 d).0 ≡ some t
  unfolding result_ok_conv
  result_ok-decode_encode (ok t) e d =
      rw (free.encode_ne_niche t v.encode_default) (rw (law.decode_encode t v.encode_default d))
  result_ok-decode_encode (err f) e d = rw free.niche_found (rw (zero_sized f))

  -- Where the value keeps the contract and has a niche, and the error has no value but its default, the
  -- result encoded through the niche of its value keeps the contract.
  pub result_ok-IsConv : IsConv (result_ok_conv v n default)
  unfolding result_ok_conv
  result_ok-IsConv = record {
    decode_encode = result_ok-decode_encode;
    decode_valid = λ c d. ground (arith, law.decode_valid c.carrier d);
  }

  result_err-decode_encode :
      (t : Result F T) (e : Option E) (d : D)
      → let u = result_err_conv v n default in (u.soft_decode (u.soft_encode t e).0 d).0 ≡ some t
  unfolding result_err_conv
  result_err-decode_encode (err t) e d =
      rw (free.encode_ne_niche t v.encode_default) (rw (law.decode_encode t v.encode_default d))
  result_err-decode_encode (ok f) e d = rw free.niche_found (rw (zero_sized f))

  -- Where the error keeps the contract and has a niche, and the value type has no value but its
  -- default, the result encoded through the niche of its error keeps the contract.
  pub result_err-IsConv : IsConv (result_err_conv v n default)
  unfolding result_err_conv
  result_err-IsConv = record {
    decode_encode = result_err-decode_encode;
    decode_valid = λ c d. ground (arith, law.decode_valid c.carrier d);
  }
