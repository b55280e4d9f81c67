-- ===== src/COption.antt =====
-- `COption` and `COptionSome` of src/option.rs, and the conversions of `Option` in src/option.rs,
-- src/stored.rs and src/transmute.rs: by an explicit tag, or through the payload's niche.
pub mod Laws
pub mod Order
use co.Prelude.{
  ℕ, zero, suc, Bool, true, false, ◌||◌, Option, none, some, map_some, ◌==◌, if◌then◌else◌,
}
use co.Conv.{Conv, Niche}
use co.StableOption.{StableOption}
use co.Primitive.{Ordering, less, equal, greater, CBool}

-- `From<RustOption<T>> for Option<T>`.
unfoldable pub stable_of {ℓ} : {T : Type ℓ} → Option T → StableOption T
stable_of none = StableOption.none
stable_of (some t) = StableOption.some t

-- `From<Option<T>> for RustOption<T>`.
unfoldable pub of_stable {ℓ} : {T : Type ℓ} → StableOption T → Option T
of_stable StableOption.none = none
of_stable (StableOption.some t) = some t

-- `struct COption`: the tag, and the bits of the payload read as a carrier. Every carrier type is
-- robust, so the bits of an absent payload, which are zeroed, read as some carrier too.
pub record COption {κ} (C : Type κ) : Type κ where
  pub tag : ℕ
  pub payload : C

-- `struct COptionSome(R::CType)`, transparent.
pub record COptionSome {κ} (C : Type κ) : Type κ where
  pub carrier : C

module _ {κ} {C : Type κ} where
  -- `COption::Some`.
  unfoldable pub c_some : C → COption C
  c_some value = record { tag = 1; payload = value }

  -- `COption::None`: the payload is zeroed.
  unfoldable pub c_none : C → COption C
  c_none zeroed = record { tag = 0; payload = zeroed }

  -- `COption::niche`.
  unfoldable pub c_option_niche : C → COption C
  c_option_niche zeroed = record { tag = 2; payload = zeroed }

  -- `COption::new`.
  unfoldable pub c_option_new : C → Option C → COption C
  unfolding c_some c_none
  c_option_new zeroed none = c_none zeroed
  c_option_new zeroed (some value) = c_some value

  into_option_tag : ℕ → C → Option (Option C)
  into_option_tag zero payload = some none
  into_option_tag (suc zero) payload = some (some payload)
  into_option_tag _ payload = none

  -- `COption::into_option`, and `as_option`, which borrows instead.
  unfoldable pub into_option : COption C → Option (Option C)
  unfolding into_option_tag
  into_option c = into_option_tag c.tag c.payload

  c_option_eq_tags : (C → C → Bool) → ℕ → ℕ → C → C → Bool
  c_option_eq_tags eq zero zero a b = true
  c_option_eq_tags eq (suc zero) (suc zero) a b = eq a b
  c_option_eq_tags eq _ _ a b = false

  -- `PartialEq for COption`, over that of the payload.
  unfoldable pub c_option_eq : (C → C → Bool) → COption C → COption C → Bool
  unfolding c_option_eq_tags
  c_option_eq eq a b = c_option_eq_tags eq a.tag b.tag a.payload b.payload

  c_option_cmp_tags : (C → C → Option Ordering) → ℕ → ℕ → C → C → Option Ordering
  c_option_cmp_tags cmp zero zero a b = some equal
  c_option_cmp_tags cmp zero (suc zero) a b = some less
  c_option_cmp_tags cmp (suc zero) zero a b = some greater
  c_option_cmp_tags cmp (suc zero) (suc zero) a b = cmp a b
  c_option_cmp_tags cmp _ _ a b = none

  -- `PartialOrd for COption`, over that of the payload.
  unfoldable pub c_option_cmp : (C → C → Option Ordering) → COption C → COption C → Option Ordering
  unfolding c_option_cmp_tags
  c_option_cmp cmp a b = c_option_cmp_tags cmp a.tag b.tag a.payload b.payload

-- `Niche for Option<R>` without a niche of `R`: the first tag that is not in use.
unfoldable pub tagged_option_niche {κ} : {C : Type κ} → C → Niche (COption C)
unfolding c_option_niche
tagged_option_niche zeroed = record {
  niche = c_option_niche zeroed;
  is_niche = λ c. c.tag == (c_option_niche zeroed).tag;
}

module _ {ℓ κ μ ν} {T : Type ℓ} {C : Type κ} {E : Type μ} {D : Type ν} (v : Conv T C E D) where
  -- `EncodeMove::soft_encode` for `option::Option<T>`.
  unfoldable pub stable_option_encode : C → StableOption T → Option E → COption C × Option E
  unfolding c_none c_some
  stable_option_encode zeroed StableOption.none store = (c_none zeroed, none)
  stable_option_encode zeroed (StableOption.some value) store =
      let (c, inner) = v.soft_encode value v.encode_default in (c_some c, some inner)

  stable_option_decode_payload : Option (Option C) → Option D → Option (StableOption T) × Option D
  stable_option_decode_payload none store = (none, store)
  stable_option_decode_payload (some none) store = (some StableOption.none, none)
  stable_option_decode_payload (some (some value)) store =
      let (t, inner) = v.soft_decode value v.decode_default in
      (map_some StableOption.some t, some inner)

  -- `DecodeMove::soft_decode` for `option::Option<T>`.
  unfoldable pub stable_option_decode : COption C → Option D → Option (StableOption T) × Option D
  unfolding stable_option_decode_payload into_option
  stable_option_decode source store = stable_option_decode_payload (into_option source) store

  stable_option_valid_tag : ℕ → C → Bool
  stable_option_valid_tag zero payload = true
  stable_option_valid_tag (suc zero) payload = v.is_valid payload
  stable_option_valid_tag _ payload = false

  -- `AbiCompatibleValidate::is_valid` for `option::Option<T>`.
  unfoldable pub stable_option_is_valid : COption C → Bool
  unfolding stable_option_valid_tag
  stable_option_is_valid target = stable_option_valid_tag target.tag target.payload

  unfoldable pub stable_option_conv : C → Conv (StableOption T) (COption C) (Option E) (Option D)
  unfolding stable_option_encode stable_option_decode stable_option_is_valid
  stable_option_conv zeroed = record {
    encode_default = none;
    soft_encode = stable_option_encode zeroed;
    decode_default = none;
    soft_decode = stable_option_decode;
    is_valid = stable_option_is_valid;
  }

  -- The conversion of the native `Option<R>` where `R` has no niche: through `option::Option`.
  unfoldable pub tagged_option_conv : C → Conv (Option T) (COption C) (Option E) (Option D)
  unfolding stable_option_encode stable_option_decode stable_option_is_valid stable_of of_stable
  tagged_option_conv zeroed = record {
    encode_default = none;
    soft_encode = λ t store. stable_option_encode zeroed (stable_of t) store;
    decode_default = none;
    soft_decode =
        λ c store. let (t, store') = stable_option_decode c store in (map_some of_stable t, store');
    is_valid = stable_option_is_valid;
  }

module _ {ℓ κ μ ν} {T : Type ℓ} {C : Type κ} {E : Type μ} {D : Type ν} (v : Conv T C E D)
    (n : Niche C) where
  -- `EncodeMove::soft_encode` for `Option<R>` where `R` has a niche.
  unfoldable pub niche_option_encode : Option T → Option E → COptionSome C × Option E
  niche_option_encode (some value) store =
      let (c, inner) = v.soft_encode value v.encode_default in (record { carrier = c }, some inner)
  niche_option_encode none store = (record { carrier = n.niche }, none)

  -- `DecodeMove::soft_decode` for `Option<R>` where `R` has a niche.
  unfoldable pub niche_option_decode : COptionSome C → Option D → Option (Option T) × Option D
  niche_option_decode source store =
      if n.is_niche source.carrier
      then (some none, none)
      else (let (t, inner) = v.soft_decode source.carrier v.decode_default in
          (map_some some t, some inner))

  -- `AbiCompatibleValidate::is_valid` for `Option<R>` where `R` has a niche.
  unfoldable pub niche_option_is_valid : COptionSome C → Bool
  niche_option_is_valid target = n.is_niche target.carrier || v.is_valid target.carrier

  unfoldable pub niche_option_conv : Conv (Option T) (COptionSome C) (Option E) (Option D)
  unfolding niche_option_encode niche_option_decode niche_option_is_valid
  niche_option_conv = record {
    encode_default = none;
    soft_encode = niche_option_encode;
    decode_default = none;
    soft_decode = niche_option_decode;
    is_valid = niche_option_is_valid;
  }

-- `Niche for Option<bool>`.
unfoldable pub option_bool_niche : Niche (COptionSome CBool)
option_bool_niche = record {
  niche = record { carrier = record { byte = 3 } };
  is_niche = λ c. c.carrier.byte == 3;
}

-- `Niche for Option<Option<bool>>`.
unfoldable pub option_option_bool_niche : Niche (COptionSome (COptionSome CBool))
option_option_bool_niche = record {
  niche = record { carrier = record { carrier = record { byte = 4 } } };
  is_niche = λ c. c.carrier.carrier.byte == 4;
}
