-- ===== src/CResult/Laws.antt =====
-- The tagged conversions of `Result` keep the conversion contract of their payloads.
use co.Prelude.{Option, some, ◌≡◌, refl, arith, Result, ok, err, Result-cases, is_some, inl, inr}
use co.Conv.{Conv, IsConv, IsNiche}
use co.StableResult.{StableResult}
use co.CResult.{CResult, stable_result_conv, tagged_result_conv, tagged_result_niche}

module _ {ℓ ℓ' κ κ' μ μ' ν ν'} {T : Type ℓ} {F : Type ℓ'} {C : Type κ} {C' : Type κ'} {E : Type μ}
    {E' : Type μ'} {D : Type ν} {D' : Type ν'} (v : Conv T C E D) (w : Conv F C' E' D')
    (law : IsConv v) (law' : IsConv w) where
  stable_result-decode_encode :
      (t : StableResult T F) (e : Option (Result E E')) (d : Option (Result D D'))
      → let u = stable_result_conv v w in (u.soft_decode (u.soft_encode t e).0 d).0 ≡ some t
  unfolding stable_result_conv
  stable_result-decode_encode (StableResult.ok t) e d =
      rw (law.decode_encode t v.encode_default v.decode_default)
  stable_result-decode_encode (StableResult.err t) e d =
      rw (law'.decode_encode t w.encode_default w.decode_default)

  stable_result-decode_valid :
      (c : CResult C C') (d : Option (Result D D'))
      → let u = stable_result_conv v w in is_some (u.soft_decode c d).0 ≡ u.is_valid c
  unfolding stable_result_conv
  stable_result-decode_valid c d = elim (Result-cases c.payload) [
    | inl (x, e) ↦ ground (arith, law.decode_valid x v.decode_default)
    | inr (y, e) ↦ ground (arith, law'.decode_valid y w.decode_default)
  ]

  -- Where the value and the error keep the conversion contract, so does the stable result.
  pub stable_result-IsConv : IsConv (stable_result_conv v w)
  stable_result-IsConv = record {
    decode_encode = stable_result-decode_encode;
    decode_valid = stable_result-decode_valid;
  }

  tagged_result-decode_encode :
      (t : Result T F) (e : Option (Result E E')) (d : Option (Result D D'))
      → let u = tagged_result_conv v w in (u.soft_decode (u.soft_encode t e).0 d).0 ≡ some t
  unfolding tagged_result_conv
  tagged_result-decode_encode (ok t) e d =
      rw (law.decode_encode t v.encode_default v.decode_default)
  tagged_result-decode_encode (err t) e d =
      rw (law'.decode_encode t w.encode_default w.decode_default)

  tagged_result-decode_valid :
      (c : CResult C C') (d : Option (Result D D'))
      → let u = tagged_result_conv v w in is_some (u.soft_decode c d).0 ≡ u.is_valid c
  unfolding tagged_result_conv
  tagged_result-decode_valid c d = elim (Result-cases c.payload) [
    | inl (x, e) ↦ ground (arith, law.decode_valid x v.decode_default)
    | inr (y, e) ↦ ground (arith, law'.decode_valid y w.decode_default)
  ]

  -- The standard result, encoded with an explicit tag, keeps them too.
  pub tagged_result-IsConv : IsConv (tagged_result_conv v w)
  tagged_result-IsConv = record {
    decode_encode = tagged_result-decode_encode;
    decode_valid = tagged_result-decode_valid;
  }

  -- The tag 2 is a niche of the tagged result.
  pub tagged_result-IsNiche :
      (zeroed : C) → IsNiche (tagged_result_conv v w) (tagged_result_niche {D = C'} zeroed)
  unfolding tagged_result_conv tagged_result_niche
  tagged_result-IsNiche zeroed = record {
    niche_found = refl;
    encode_ne_niche = λ t e. ground arith;
  }
