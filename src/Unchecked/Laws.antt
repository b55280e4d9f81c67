-- ===== src/Unchecked/Laws.antt =====
-- Unchecked decoding of a valid carrier is checked decoding.
use co.Prelude.{ℕ, true, Option, none, some, ◌≡◌, ap, refl, arith, Result-cases, inl, inr}
use co.Conv.{Conv, Niche, IsConv}
use co.COption.{stable_option_conv, niche_option_conv}
use co.CResult.{stable_result_conv, result_ok_conv, result_err_conv}
use co.Compound.{
  Array, nil, cons, pair_conv, array_conv, all, decode_array_elements, decode_elements,
  unwrap_elements, cons_some,
}
use co.Unchecked.{
  Decoder, unchecked_stable_option, unchecked_niche_option, unchecked_result_ok,
  unchecked_result_err, unchecked_array, unchecked_stable_result, unchecked_pair, cons_defined,
}

-- On a valid carrier the unchecked decoder has the value and the store of the checked one.
unfoldable pub Agrees {ℓ κ μ ν} :
    {T : Type ℓ} {C : Type κ} {E : Type μ} {D : Type ν}
    → Conv T C E D
    → Decoder T C D
    → Type (ℓ ⊔ κ ⊔ ν)
Agrees v decode = (c : _) (d : _) (valid : v.is_valid c ≡ true) → decode c d ≡ v.soft_decode c d

module _ {ℓ κ μ ν} {T : Type ℓ} {C : Type κ} {E : Type μ} {D : Type ν} (v : Conv T C E D)
    (decode : Decoder T C D) (same : Agrees v decode) where
  stable_option-Agrees :
      (zeroed : C)
      → Agrees (stable_option_conv v zeroed) (unchecked_stable_option decode v.decode_default)
  unfolding Agrees stable_option_conv unchecked_stable_option
  stable_option-Agrees zeroed c d valid = ground (arith, same c.payload v.decode_default)

  niche_option-Agrees :
      (n : Niche C)
      → Agrees (niche_option_conv v n) (unchecked_niche_option decode v.decode_default n)
  unfolding Agrees niche_option_conv unchecked_niche_option
  niche_option-Agrees n c d valid = ground (arith, same c.carrier v.decode_default)

  result_ok-Agrees {ℓ'} :
      {F : Type ℓ'} (n : Niche C) (f : F)
      → Agrees (result_ok_conv v n f) (unchecked_result_ok decode v.decode_default n f)
  unfolding Agrees result_ok_conv unchecked_result_ok
  result_ok-Agrees n f c d valid = ground (arith, same c.carrier d)

  result_err-Agrees {ℓ'} :
      {F : Type ℓ'} (n : Niche C) (f : F)
      → Agrees (result_err_conv v n f) (unchecked_result_err decode v.decode_default n f)
  unfolding Agrees result_err_conv unchecked_result_err
  result_err-Agrees n f c d valid = ground (arith, same c.carrier d)

  cons_defined_lem :
      {n : ℕ} (t : Option T) (ts : Option (Array T n)) → cons_defined t ts ≡ cons_some v t ts
  unfolding cons_defined cons_some
  cons_defined_lem none none = refl
  cons_defined_lem none (some ts) = refl
  cons_defined_lem (some t) none = refl
  cons_defined_lem (some t) (some ts) = refl

  array_lem :
      {n : ℕ} (cs : Array C n) (ds : Array D n) (valid : all v.is_valid cs ≡ true)
      → unchecked_array decode cs ds ≡ decode_array_elements v cs ds
  unfolding all unchecked_array decode_array_elements decode_elements unwrap_elements Agrees
  array_lem nil nil valid = refl
  array_lem (cons c cs) (cons d ds) valid =
      let split : (v.is_valid c ≡ true) × (all v.is_valid cs ≡ true) = ground arith in
      let store = cons (v.soft_decode c d).1 (decode_array_elements v cs ds).1 in
      rw (same c d split.0) (
        rw (array_lem cs ds split.1) (
          ap (λ ts. (ts, store))
            (cons_defined_lem (v.soft_decode c d).0 (decode_array_elements v cs ds).0)))

  array-Agrees : (n : ℕ) → Agrees (array_conv v n) (unchecked_array decode)
  unfolding Agrees array_conv
  array-Agrees n c d valid = array_lem c d valid

module _ {ℓ ℓ' κ κ' μ μ' ν ν'} {T : Type ℓ} {F : Type ℓ'} {C : Type κ} {C' : Type κ'} {E : Type μ}
    {E' : Type μ'} {D : Type ν} {D' : Type ν'} (v : Conv T C E D) (w : Conv F C' E' D')
    (decode : Decoder T C D) (decode' : Decoder F C' D') (same : Agrees v decode)
    (same' : Agrees w decode') where
  stable_result-Agrees :
      Agrees
        (stable_result_conv v w)
        (unchecked_stable_result decode v.decode_default decode' w.decode_default)
  unfolding Agrees stable_result_conv unchecked_stable_result
  stable_result-Agrees c d valid = elim (Result-cases c.payload) [
    | inl (x, e) ↦ ground (arith, same x v.decode_default, e)
    | inr (y, e) ↦ ground (arith, same' y w.decode_default, e)
  ]

  pair-Agrees :
      (law : IsConv v)
      → Agrees (pair_conv v w) (unchecked_pair decode v.decode_default decode' w.decode_default)
  unfolding Agrees pair_conv unchecked_pair
  pair-Agrees law c d valid =
      ground (arith, same c.first d.0, same' c.second d.1, law.decode_valid c.first d.0)

-- Where the payloads' unchecked decoders agree with the checked ones on every valid carrier, so do
-- those of options, results, pairs and arrays of any length: the same value, and the same store.
pub unchecked-Agrees {ℓ ℓ' κ κ' μ μ' ν ν'} :
    {T : Type ℓ} {F : Type ℓ'} {C : Type κ} {C' : Type κ'} {E : Type μ} {E' : Type μ'} {D : Type ν}
    {D' : Type ν'} (v : Conv T C E D) (w : Conv F C' E' D') (decode : Decoder T C D)
    (decode' : Decoder F C' D') (same : Agrees v decode) (same' : Agrees w decode') (law : IsConv v)
    (zeroed : C) (m : Niche C) (f : F) (n : ℕ)
    → Agrees (stable_option_conv v zeroed) (unchecked_stable_option decode v.decode_default)
      × Agrees (niche_option_conv v m) (unchecked_niche_option decode v.decode_default m)
      × Agrees
          (stable_result_conv v w)
          (unchecked_stable_result decode v.decode_default decode' w.decode_default)
      × Agrees (result_ok_conv v m f) (unchecked_result_ok decode v.decode_default m f)
      × Agrees (result_err_conv v m f) (unchecked_result_err decode v.decode_default m f)
      × Agrees (pair_conv v w) (unchecked_pair decode v.decode_default decode' w.decode_default)
      × Agrees (array_conv v n) (unchecked_array decode)
unchecked-Agrees v w decode decode' same same' law zeroed m f n = (
  stable_option-Agrees v decode same zeroed,
  niche_option-Agrees v decode same m,
  stable_result-Agrees v w decode decode' same same',
  result_ok-Agrees v decode same m f,
  result_err-Agrees v decode same m f,
  pair-Agrees v w decode decode' same same' law,
  array-Agrees v decode same n,
)
