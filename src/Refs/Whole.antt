-- ===== src/Refs/Whole.antt =====
-- References to results, and a reference encoded and decoded through its two stores.
use co.Prelude.{
  true, false, Option, none, some, map_some, is_some, Result, ok, err, if◌then◌else◌, ◌≡◌, ◌∙◌,
  refl, ap,
}
use co.Conv.{Niche}
use co.Store.{drop_option}
use co.Sync.Shared.{RefSized, ref_sized_encode, ref_sized_decode}
use co.Refs.{
  RefConv, encode_ref, decode_ref, ok_of, err_of, ok_or_default, err_or_default, result_ok_refs,
  result_err_refs,
}
use co.Refs.Laws.{IsRefConv, IntactNiche, niche_encode-Intact, niche_decode-Intact, niche_whole}

module _ {ω ℓ μ ν φ} {W : Type ω} {T : Type ℓ} {C : Type 0} {E : Type μ} {D : Type ν} {F : Type φ}
    (v : RefConv W T C E D) (Intact : T → C → W → Type 0) (law : IsRefConv v Intact) (n : Niche C)
    (found : n.is_niche n.niche ≡ true)
    (free : (t : T) (c : C) (w : W) → Intact t c w → n.is_niche c ≡ false) (absent : F)
    (single : (f : F) → absent ≡ f) where
  ok_back : (r : Result T F) → ok_or_default absent (ok_of r) ≡ r
  unfolding ok_of ok_or_default
  ok_back (ok t) = refl
  ok_back (err f) = ap err (single f)

  err_back : (r : Result F T) → err_or_default absent (err_of r) ≡ r
  unfolding err_of err_or_default
  err_back (ok f) = ap ok (single f)
  err_back (err t) = refl

  -- Where the value keeps the contract of references and has a niche that no intact carrier is, so does
  -- Result through that niche, for an error type of one value.
  pub result_ok_refs-IsRefConv :
      IsRefConv (result_ok_refs v absent n) (λ r c w. IntactNiche Intact n (ok_of r) c.carrier w)
  unfolding result_ok_refs
  result_ok_refs-IsRefConv = record {
    encode_intact = λ r store w. niche_encode-Intact v Intact law n found free (ok_of r) store w;
    decode_intact = λ r c store w whole.
        ap (map_some (ok_or_default absent))
          (niche_decode-Intact v Intact law n found free (ok_of r) c.carrier store w whole)
        ∙ ap some (ok_back r);
    drop_intact = λ r c store w whole.
        niche_whole v Intact law n found free (ok_of r) c.carrier store w whole;
  }

  -- The same through the niche of the error, for a value type of one value.
  pub result_err_refs-IsRefConv :
      IsRefConv (result_err_refs v absent n) (λ r c w. IntactNiche Intact n (err_of r) c.carrier w)
  unfolding result_err_refs
  result_err_refs-IsRefConv = record {
    encode_intact = λ r store w. niche_encode-Intact v Intact law n found free (err_of r) store w;
    decode_intact = λ r c store w whole.
        ap (map_some (err_or_default absent))
          (niche_decode-Intact v Intact law n found free (err_of r) c.carrier store w whole)
        ∙ ap some (err_back r);
    drop_intact = λ r c store w whole.
        niche_whole v Intact law n found free (err_of r) c.carrier store w whole;
  }

module _ {ω ℓ μ ν} {W : Type ω} {T : Type ℓ} {C : Type 0} {E : Type μ} {D : Type ν}
    (v : RefConv W T C E D) (Intact : T → C → W → Type 0) (law : IsRefConv v Intact)
    (drop_value : T → W → W)
    (drop_frame : (t : T) (c : C) (r : T) (w : W)
      → Intact t c w
      → Intact t c (drop_value r w)) where
  drop_option-Intact :
      (t : T) (c : C) (earlier : Option T) (w : W) (whole : Intact t c w)
      → Intact t c (drop_option drop_value earlier w)
  unfolding drop_option
  drop_option-Intact t c none w whole = whole
  drop_option-Intact t c (some r) w whole = drop_frame t c r w whole

  -- A reference comes back: where the conversion keeps the contract of references and dropping an earlier
  -- value leaves carriers intact, decoding the reference that encoding made answers a reference to
  -- the value, whatever the two stores held before.
  pub decode_ref-encode_ref :
      (t : T) (self : RefSized C E) (other : RefSized T D) (w : W)
      → let (kept, w1) = encode_ref v t self w in
        let (answer, (decoded, w2)) = decode_ref v drop_value kept.value other w1 in
        (is_some kept.value ≡ true) × (answer ≡ some tt) × (decoded.value ≡ some t)
  unfolding encode_ref decode_ref ref_sized_encode ref_sized_decode
  decode_ref-encode_ref t self other w =
      let before : W = drop_option (λ c w'. w') self.value w in
      let (c, (e, w1)) = v.encode_ref_field t self.store before in
      let read =
        law.decode_intact t c other.store (drop_option drop_value other.value w1)
          (drop_option-Intact t c other.value w1 (law.encode_intact t self.store before)) in
      (refl, ap (λ o. if is_some o then some tt else none) read, read)
