-- ===== src/Refs.antt =====
-- Shared references to composite values, converted field by field: `EncodeRef` of src/shared.rs and
-- `DecodeRef` of src/decoded.rs for Option, Result and arrays, over the stores of src/sync.rs.
-- `W` is the state of the memory.
pub mod Laws
pub mod Whole
use co.Prelude.{
  ℕ, zero, suc, Bool, true, false, Option, none, some, map_some, Result, ok, err, if◌then◌else◌,
}
use co.Conv.{Niche}
use co.Store.{Store, option_store, option_result_store, drop_option}
use co.Sync.Shared.{RefSized, ref_sized_encode, ref_sized_decode, ref_sized_store}
use co.COption.{COption, c_some, c_none, into_option, COptionSome}
use co.CResult.{CResult, c_ok, c_err, into_result, CResultOk, CResultErr}
use co.Compound.{Array, nil, cons}

-- The conversion of `&T` for a field: `encode_ref_field` of src/stored.rs, which copies the carrier out
-- of the encoded reference, and the decoding of a reference to the carrier, which is cloned.
pub record RefConv {ω ℓ κ μ ν} (W : Type ω) (T : Type ℓ) (C : Type κ) (E : Type μ) (D : Type ν)
    : Type (ω ⊔ ℓ ⊔ κ ⊔ μ ⊔ ν) where
  pub encode_store : Store W E
  pub encode_ref_field : T → E → W → C × (E × W)
  pub decode_store : Store W D
  pub decode_ref_field : C → D → W → Option T × (D × W)

-- The payload that is encoded where the other side of a Result is zero-sized, and the Result that is
-- decoded, with the `Default` of the other side.
unfoldable pub ok_of {ℓ κ} : {T : Type ℓ} {F : Type κ} → Result T F → Option T
ok_of (ok t) = some t
ok_of (err e) = none

unfoldable pub err_of {ℓ κ} : {T : Type ℓ} {F : Type κ} → Result F T → Option T
err_of (ok t) = none
err_of (err e) = some e

unfoldable pub ok_or_default {ℓ κ} : {T : Type ℓ} {F : Type κ} → F → Option T → Result T F
ok_or_default absent none = err absent
ok_or_default absent (some t) = ok t

unfoldable pub err_or_default {ℓ κ} : {T : Type ℓ} {F : Type κ} → F → Option T → Result F T
err_or_default absent none = ok absent
err_or_default absent (some e) = err e

-- `RefSizedEncodeStore` and `RefSizedDecodeStore` around the conversion of the fields; carriers are
-- `Copy`, and dropping one does nothing.
module _ {ω ℓ κ μ ν} {W : Type ω} {T : Type ℓ} {C : Type κ} {E : Type μ} {D : Type ν}
    (v : RefConv W T C E D) where
  -- `store.encode(|fields| …)` of `encode_ref`.
  unfoldable pub encode_ref : T → RefSized C E → W → RefSized C E × W
  unfolding ref_sized_encode
  encode_ref t self w = ref_sized_encode v.encode_store (λ c w'. w') (v.encode_ref_field t) self w

  -- `source.into_ref()?`, and `store.decode(|fields| …)` of `decode_ref`; a null pointer is none.
  unfoldable pub decode_ref :
      (T → W → W) → Option C → RefSized T D → W → Option (Unit {0}) × (RefSized T D × W)
  unfolding ref_sized_decode
  decode_ref drop_value none self w = (none, (self, w))
  decode_ref drop_value (some c) self w =
      ref_sized_decode v.decode_store drop_value (v.decode_ref_field c) self w

module _ {ω ℓ κ μ ν} {W : Type ω} {T : Type ℓ} {C : Type κ} {E : Type μ} {D : Type ν}
    (v : RefConv W T C E D) where
  -- `store.insert(Default::default())` and the conversion into the new store; the earlier is dropped.
  unfoldable pub encode_inserted : T → Option E → W → C × (Option E × W)
  unfolding option_store
  encode_inserted value store w =
      let w1 = (option_store v.encode_store).drop store w in
      let (c, (e, w2)) = v.encode_ref_field value v.encode_store.default w1 in (c, (some e, w2))

  unfoldable pub decode_inserted : C → Option D → W → Option T × (Option D × W)
  unfolding option_store
  decode_inserted value store w =
      let w1 = (option_store v.decode_store).drop store w in
      let (t, (d, w2)) = v.decode_ref_field value v.decode_store.default w1 in (t, (some d, w2))

  -- `EncodeRef for Option<R>` without a niche.
  unfoldable pub option_encode_ref : C → Option T → Option E → W → COption C × (Option E × W)
  unfolding encode_inserted option_store
  option_encode_ref zeroed (some value) store w =
      let (c, (e, w')) = encode_inserted value store w in (c_some c, (e, w'))
  option_encode_ref zeroed none store w =
      (c_none zeroed, (none, (option_store v.encode_store).drop store w))

  option_decode_payload : Option (Option C) → Option D → W → Option (Option T) × (Option D × W)
  unfolding decode_inserted option_store
  option_decode_payload none fields w = (none, (fields, w))
  option_decode_payload (some none) fields w =
      (some none, (none, (option_store v.decode_store).drop fields w))
  option_decode_payload (some (some value)) fields w =
      let (t, (d, w')) = decode_inserted value fields w in (map_some some t, (d, w'))

  -- `DecodeRef for Option<T>` without a niche.
  unfoldable pub option_decode_ref : COption C → Option D → W → Option (Option T) × (Option D × W)
  unfolding option_decode_payload
  option_decode_ref source fields w = option_decode_payload (into_option source) fields w

  unfoldable pub option_refs : C → RefConv W (Option T) (COption C) (Option E) (Option D)
  unfolding option_encode_ref option_decode_ref
  option_refs zeroed = record {
    encode_store = option_store v.encode_store;
    encode_ref_field = option_encode_ref zeroed;
    decode_store = option_store v.decode_store;
    decode_ref_field = option_decode_ref;
  }

  -- A payload, or the niche where there is none: `EncodeRef` through a niche, of Option and of Result.
  unfoldable pub niche_encode_ref : Niche C → Option T → Option E → W → C × (Option E × W)
  unfolding encode_inserted option_store
  niche_encode_ref n (some value) store w = encode_inserted value store w
  niche_encode_ref n none store w = (n.niche, (none, (option_store v.encode_store).drop store w))

  niche_decode_tested : Bool → C → Option D → W → Option (Option T) × (Option D × W)
  unfolding decode_inserted option_store
  niche_decode_tested true c field w =
      (some none, (none, (option_store v.decode_store).drop field w))
  niche_decode_tested false c field w =
      let (t, (d, w')) = decode_inserted c field w in (map_some some t, (d, w'))

  unfoldable pub niche_decode_ref : Niche C → C → Option D → W → Option (Option T) × (Option D × W)
  unfolding niche_decode_tested
  niche_decode_ref n c field w = niche_decode_tested (n.is_niche c) c field w

  -- `EncodeRef` and `DecodeRef` for Option through a niche.
  unfoldable pub niche_option_refs :
      Niche C → RefConv W (Option T) (COptionSome C) (Option E) (Option D)
  unfolding niche_encode_ref niche_decode_ref
  niche_option_refs n = record {
    encode_store = option_store v.encode_store;
    encode_ref_field =
        λ t store w. let (c, rest) = niche_encode_ref n t store w in (record { carrier = c }, rest);
    decode_store = option_store v.decode_store;
    decode_ref_field = λ c field w. niche_decode_ref n c.carrier field w;
  }

  -- The same for Result through the niche of its value; `absent` is the `Default` of the error.
  unfoldable pub result_ok_refs {φ} :
      {F : Type φ} → F → Niche C → RefConv W (Result T F) (CResultOk C) (Option E) (Option D)
  unfolding niche_encode_ref niche_decode_ref ok_of ok_or_default
  result_ok_refs absent n = record {
    encode_store = option_store v.encode_store;
    encode_ref_field = λ t store w.
        let (c, rest) = niche_encode_ref n (ok_of t) store w in (record { carrier = c }, rest);
    decode_store = option_store v.decode_store;
    decode_ref_field = λ c field w.
        let (t, rest) = niche_decode_ref n c.carrier field w in
        (map_some (ok_or_default absent) t, rest);
  }

  -- The same for Result through the niche of its error.
  unfoldable pub result_err_refs {φ} :
      {F : Type φ} → F → Niche C → RefConv W (Result F T) (CResultErr C) (Option E) (Option D)
  unfolding niche_encode_ref niche_decode_ref err_of err_or_default
  result_err_refs absent n = record {
    encode_store = option_store v.encode_store;
    encode_ref_field = λ t store w.
        let (c, rest) = niche_encode_ref n (err_of t) store w in (record { carrier = c }, rest);
    decode_store = option_store v.decode_store;
    decode_ref_field = λ c field w.
        let (t, rest) = niche_decode_ref n c.carrier field w in
        (map_some (err_or_default absent) t, rest);
  }
