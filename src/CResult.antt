-- ===== src/CResult.antt =====
-- `CResult`, `CResultOk` and `CResultErr` of src/result.rs, and the conversions of `Result` in
-- src/result.rs, src/stored.rs and src/transmute.rs.
pub mod Laws
pub mod NicheLaws
pub mod Order
pub mod StaleStore
use co.Prelude.{
  ℕ, zero, suc, Bool, true, false, ◌||◌, Option, none, some, map_some, ◌==◌, if◌then◌else◌, Result,
  ok, err, ◌>>=◌,
}
use co.Conv.{Conv, Niche}
use co.Primitive.{Ordering, less, equal, greater}
use co.StableResult.{StableResult}

-- `From<RustResult<T, E>> for Result<T, E>`.
unfoldable pub stable_of {ℓ κ} : {T : Type ℓ} {E : Type κ} → Result T E → StableResult T E
stable_of (ok t) = StableResult.ok t
stable_of (err e) = StableResult.err e

-- `From<Result<T, E>> for RustResult<T, E>`.
unfoldable pub of_stable {ℓ κ} : {T : Type ℓ} {E : Type κ} → StableResult T E → Result T E
of_stable (StableResult.ok t) = ok t
of_stable (StableResult.err e) = err e

-- `union CResult`: both variants put the tag first, and the payload is that of one variant.
-- Reading the payload of the other variant is `none`: the contract of `from_raw_parts` excludes it.
pub record CResult {κ μ} (C : Type κ) (D : Type μ) : Type (κ ⊔ μ) where
  pub tag : ℕ
  pub payload : Result C D

module _ {κ μ} {C : Type κ} {D : Type μ} where
  -- `CResult::Ok`.
  unfoldable pub c_ok : C → CResult C D
  c_ok value = record { tag = 0; payload = ok value }

  -- `CResult::Err`.
  unfoldable pub c_err : D → CResult C D
  c_err value = record { tag = 1; payload = err value }

  -- `CResult::niche`: the payload of the `ok` variant is zeroed.
  unfoldable pub c_result_niche : C → CResult C D
  c_result_niche zeroed = record { tag = 2; payload = ok zeroed }

  -- `CResult::new`.
  unfoldable pub c_result_new : Result C D → CResult C D
  unfolding c_ok c_err
  c_result_new (ok value) = c_ok value
  c_result_new (err value) = c_err value

  -- `CResult::from_raw_parts`.
  unfoldable pub c_result_from_raw_parts : ℕ → Result C D → CResult C D
  c_result_from_raw_parts tag (ok payload) = record { tag = tag; payload = ok payload }
  c_result_from_raw_parts tag (err payload) = record { tag = tag; payload = err payload }

  abbrev pub ok_payload : Result C D → Option C
  ok_payload (ok c) = some c
  ok_payload (err d) = none

  abbrev pub err_payload : Result C D → Option D
  err_payload (ok c) = none
  err_payload (err d) = some d

  into_result_tag : ℕ → Result C D → Option (Result C D)
  into_result_tag zero payload = map_some ok (ok_payload payload)
  into_result_tag (suc zero) payload = map_some err (err_payload payload)
  into_result_tag _ payload = none

  -- `CResult::into_result`, and `as_result`, which borrows instead.
  unfoldable pub into_result : CResult C D → Option (Result C D)
  unfolding into_result_tag
  into_result c = into_result_tag c.tag c.payload

  c_result_eq_tags : (C → C → Bool) → (D → D → Bool) → ℕ → ℕ → Result C D → Result C D → Option Bool
  c_result_eq_tags eq err_eq zero zero a b = do x ← ok_payload a; y ← ok_payload b; some (eq x y)
  c_result_eq_tags eq err_eq (suc zero) (suc zero) a b = do
    x ← err_payload a
    y ← err_payload b
    some (err_eq x y)
  c_result_eq_tags eq err_eq _ _ a b = some false

  -- `PartialEq for CResult`, over those of the payloads; `none` where a payload is misread.
  unfoldable pub c_result_eq :
      (C → C → Bool) → (D → D → Bool) → CResult C D → CResult C D → Option Bool
  unfolding c_result_eq_tags
  c_result_eq eq err_eq a b = c_result_eq_tags eq err_eq a.tag b.tag a.payload b.payload

  c_result_cmp_tags :
      (C → C → Option Ordering)
      → (D → D → Option Ordering)
      → ℕ
      → ℕ
      → Result C D
      → Result C D
      → Option Ordering
  c_result_cmp_tags cmp err_cmp zero zero a b = do x ← ok_payload a; y ← ok_payload b; cmp x y
  c_result_cmp_tags cmp err_cmp zero (suc zero) a b = some greater
  c_result_cmp_tags cmp err_cmp (suc zero) zero a b = some less
  c_result_cmp_tags cmp err_cmp (suc zero) (suc zero) a b = do
    x ← err_payload a
    y ← err_payload b
    err_cmp x y
  c_result_cmp_tags cmp err_cmp _ _ a b = none

  -- `PartialOrd for CResult`, over those of the payloads.
  unfoldable pub c_result_cmp :
      (C → C → Option Ordering)
      → (D → D → Option Ordering)
      → CResult C D
      → CResult C D
      → Option Ordering
  unfolding c_result_cmp_tags
  c_result_cmp cmp err_cmp a b = c_result_cmp_tags cmp err_cmp a.tag b.tag a.payload b.payload

-- `Niche for Result<R, E>` where both variants have a payload.
unfoldable pub tagged_result_niche {κ μ} : {C : Type κ} {D : Type μ} → C → Niche (CResult C D)
unfolding c_result_niche
tagged_result_niche zeroed = record { niche = c_result_niche zeroed; is_niche = λ c. c.tag == 2 }

module _ {ℓ ℓ' κ κ' μ μ' ν ν'} {T : Type ℓ} {F : Type ℓ'} {C : Type κ} {C' : Type κ'} {E : Type μ}
    {E' : Type μ'} {D : Type ν} {D' : Type ν'} (v : Conv T C E D) (w : Conv F C' E' D') where
  -- `EncodeMove::soft_encode` for `result::Result<T, E>`.
  unfoldable pub stable_result_encode :
      StableResult T F → Option (Result E E') → CResult C C' × Option (Result E E')
  unfolding c_ok c_err
  stable_result_encode (StableResult.ok value) store =
      let (c, inner) = v.soft_encode value v.encode_default in (c_ok c, some (ok inner))
  stable_result_encode (StableResult.err value) store =
      let (c, inner) = w.soft_encode value w.encode_default in (c_err c, some (err inner))

  stable_result_decode_payload :
      Option (Result C C') → Option (Result D D') → Option (StableResult T F) × Option (Result D D')
  stable_result_decode_payload none store = (none, store)
  stable_result_decode_payload (some (ok value)) store =
      let (t, inner) = v.soft_decode value v.decode_default in
      (map_some StableResult.ok t, some (ok inner))
  stable_result_decode_payload (some (err value)) store =
      let (f, inner) = w.soft_decode value w.decode_default in
      (map_some StableResult.err f, some (err inner))

  -- `DecodeMove::soft_decode` for `result::Result<T, E>`.
  unfoldable pub stable_result_decode :
      CResult C C' → Option (Result D D') → Option (StableResult T F) × Option (Result D D')
  unfolding stable_result_decode_payload into_result
  stable_result_decode source store = stable_result_decode_payload (into_result source) store

  stable_result_valid_tag : ℕ → Result C C' → Bool
  stable_result_valid_tag zero (ok c) = v.is_valid c
  stable_result_valid_tag (suc zero) (err c) = w.is_valid c
  stable_result_valid_tag _ payload = false

  -- `AbiCompatibleValidate::is_valid` for `result::Result<T, E>`.
  unfoldable pub stable_result_is_valid : CResult C C' → Bool
  unfolding stable_result_valid_tag
  stable_result_is_valid target = stable_result_valid_tag target.tag target.payload

  unfoldable pub stable_result_conv :
      Conv (StableResult T F) (CResult C C') (Option (Result E E')) (Option (Result D D'))
  unfolding stable_result_encode stable_result_decode stable_result_is_valid
  stable_result_conv = record {
    encode_default = none;
    soft_encode = stable_result_encode;
    decode_default = none;
    soft_decode = stable_result_decode;
    is_valid = stable_result_is_valid;
  }

  -- The conversion of the native `Result<R, E>` where both have a size: through `result::Result`.
  unfoldable pub tagged_result_conv :
      Conv (Result T F) (CResult C C') (Option (Result E E')) (Option (Result D D'))
  unfolding stable_result_encode stable_result_decode stable_result_is_valid stable_of of_stable
  tagged_result_conv = record {
    encode_default = none;
    soft_encode = λ t store. stable_result_encode (stable_of t) store;
    decode_default = none;
    soft_decode =
        λ c store. let (t, store') = stable_result_decode c store in (map_some of_stable t, store');
    is_valid = stable_result_is_valid;
  }

-- `CResultOk` and `CResultErr`, transparent over the carrier of the payload.
pub record CResultOk {κ} (C : Type κ) : Type κ where
  pub carrier : C

pub record CResultErr {κ} (C : Type κ) : Type κ where
  pub carrier : C

-- The conversion of `Result<R, E>` where `R` has a niche and the other side is zero-sized: `default`
-- is the value that decoding makes up for it.
module _ {ℓ ℓ' κ μ ν} {T : Type ℓ} {F : Type ℓ'} {C : Type κ} {E : Type μ} {D : Type ν}
    (v : Conv T C E D) (n : Niche C) (default : F) where
  -- `EncodeMove::soft_encode` for `Result<R, E>` with `CType = CResultOk<R, E>`.
  unfoldable pub result_ok_encode : Result T F → Option E → CResultOk C × Option E
  result_ok_encode (ok t) store =
      let (c, inner) = v.soft_encode t v.encode_default in (record { carrier = c }, some inner)
  result_ok_encode (err _) store = (record { carrier = n.niche }, store)

  -- `EncodeMoveUnchecked::soft_encode_unchecked` for the same type, over the same payload conversion.
  unfoldable pub result_ok_encode_unchecked : Result T F → Option E → CResultOk C × Option E
  result_ok_encode_unchecked (ok t) store =
      let (c, inner) = v.soft_encode t v.encode_default in (record { carrier = c }, some inner)
  result_ok_encode_unchecked (err _) store = (record { carrier = n.niche }, none)

  -- `DecodeMove::soft_decode` for `Result<R, E>` with `CType = CResultOk<R, E>`.
  unfoldable pub result_ok_decode : CResultOk C → D → Option (Result T F) × D
  result_ok_decode source store =
      if n.is_niche source.carrier
      then (some (err default), store)
      else (let (t, store') = v.soft_decode source.carrier store in (map_some ok t, store'))

  -- `AbiCompatibleValidate::is_valid` for `Result<R, E>` with `CType = CResultOk<R, E>`.
  unfoldable pub result_ok_is_valid : CResultOk C → Bool
  result_ok_is_valid target = n.is_niche target.carrier || v.is_valid target.carrier

  unfoldable pub result_ok_conv : Conv (Result T F) (CResultOk C) (Option E) D
  unfolding result_ok_encode result_ok_decode result_ok_is_valid
  result_ok_conv = record {
    encode_default = none;
    soft_encode = result_ok_encode;
    decode_default = v.decode_default;
    soft_decode = result_ok_decode;
    is_valid = result_ok_is_valid;
  }

  -- `EncodeMove::soft_encode` for `Result<R, E>` with `CType = CResultErr<R, E>`.
  unfoldable pub result_err_encode : Result F T → Option E → CResultErr C × Option E
  result_err_encode (ok _) store = (record { carrier = n.niche }, store)
  result_err_encode (err t) store =
      let (c, inner) = v.soft_encode t v.encode_default in (record { carrier = c }, some inner)

  -- `DecodeMove::soft_decode` for `Result<R, E>` with `CType = CResultErr<R, E>`.
  unfoldable pub result_err_decode : CResultErr C → D → Option (Result F T) × D
  result_err_decode source store =
      if n.is_niche source.carrier
      then (some (ok default), store)
      else (let (t, store') = v.soft_decode source.carrier store in (map_some err t, store'))

  -- `AbiCompatibleValidate::is_valid` for `Result<R, E>` with `CType = CResultErr<R, E>`.
  unfoldable pub result_err_is_valid : CResultErr C → Bool
  result_err_is_valid target = n.is_niche target.carrier || v.is_valid target.carrier

  unfoldable pub result_err_conv : Conv (Result F T) (CResultErr C) (Option E) D
  unfolding result_err_encode result_err_decode result_err_is_valid
  result_err_conv = record {
    encode_default = none;
    soft_encode = result_err_encode;
    decode_default = v.decode_default;
    soft_decode = result_err_decode;
    is_valid = result_err_is_valid;
  }
