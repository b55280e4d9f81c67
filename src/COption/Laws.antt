-- ===== src/COption/Laws.antt =====
-- The conversions of `Option` keep the conversion contract of their payload.
use co.Prelude.{Bool, Option, none, some, ◌≡◌, refl, arith, leb}
use co.Conv.{Conv, Niche, IsConv, IsNiche}
use co.Primitive.{CBool, bool_conv, bool_niche}
use co.Primitive.Laws.{bool-IsConv, bool-IsNiche}
use co.StableOption.{StableOption}
use co.COption.{
  COptionSome, stable_option_conv, tagged_option_conv, niche_option_conv, tagged_option_niche,
  option_bool_niche, option_option_bool_niche,
}

module _ {ℓ κ μ ν} {T : Type ℓ} {C : Type κ} {E : Type μ} {D : Type ν} (v : Conv T C E D)
    (law : IsConv v) where
  stable_option-decode_encode :
      (zeroed : C) (t : StableOption T) (e : Option E) (d : Option D)
      → let w = stable_option_conv v zeroed in (w.soft_decode (w.soft_encode t e).0 d).0 ≡ some t
  unfolding stable_option_conv
  stable_option-decode_encode zeroed StableOption.none e d = refl
  stable_option-decode_encode zeroed (StableOption.some t) e d =
      rw (law.decode_encode t v.encode_default v.decode_default)

  -- The stable option keeps the conversion contract of its payload.
  pub stable_option-IsConv : (zeroed : C) → IsConv (stable_option_conv v zeroed)
  unfolding stable_option_conv
  stable_option-IsConv zeroed = record {
    decode_encode = stable_option-decode_encode zeroed;
    decode_valid = λ c d. ground (arith, law.decode_valid c.payload v.decode_default);
  }

  tagged_option-decode_encode :
      (zeroed : C) (t : Option T) (e : Option E) (d : Option D)
      → let w = tagged_option_conv v zeroed in (w.soft_decode (w.soft_encode t e).0 d).0 ≡ some t
  unfolding tagged_option_conv
  tagged_option-decode_encode zeroed none e d = refl
  tagged_option-decode_encode zeroed (some t) e d =
      rw (law.decode_encode t v.encode_default v.decode_default)

  -- Where the payload keeps the conversion contract, so does the standard option encoded with an
  -- explicit tag.
  pub tagged_option-IsConv : (zeroed : C) → IsConv (tagged_option_conv v zeroed)
  unfolding tagged_option_conv
  tagged_option-IsConv zeroed = record {
    decode_encode = tagged_option-decode_encode zeroed;
    decode_valid = λ c d. ground (arith, law.decode_valid c.payload v.decode_default);
  }

  -- The tag 2 is a niche of the tagged option.
  pub tagged_option-IsNiche :
      (zeroed : C) → IsNiche (tagged_option_conv v zeroed) (tagged_option_niche zeroed)
  unfolding tagged_option_conv tagged_option_niche
  tagged_option-IsNiche zeroed = record {
    niche_found = refl;
    encode_ne_niche = λ t e. ground arith;
  }

module _ {ℓ κ μ ν} {T : Type ℓ} {C : Type κ} {E : Type μ} {D : Type ν} (v : Conv T C E D)
    (n : Niche C) (law : IsConv v) (free : IsNiche v n) where
  niche_option-decode_encode :
      (t : Option T) (e : Option E) (d : Option D)
      → let w = niche_option_conv v n in (w.soft_decode (w.soft_encode t e).0 d).0 ≡ some t
  unfolding niche_option_conv
  niche_option-decode_encode none e d = rw free.niche_found
  niche_option-decode_encode (some t) e d =
      rw (free.encode_ne_niche t v.encode_default)
        (rw (law.decode_encode t v.encode_default v.decode_default))

  -- Where the payload keeps the conversion contract and has a niche, the option encoded through that
  -- niche keeps the contract.
  pub niche_option-IsConv : IsConv (niche_option_conv v n)
  unfolding niche_option_conv
  niche_option-IsConv = record {
    decode_encode = niche_option-decode_encode;
    decode_valid = λ c d. ground (arith, law.decode_valid c.carrier v.decode_default);
  }

-- `Option<bool>` and `Option<Option<bool>>`, through the niches of `bool` and of `Option<bool>`.
abbrev pub option_bool_conv :
    Conv (Option Bool) (COptionSome CBool) (Option (Unit {0})) (Option (Unit {0}))
option_bool_conv = niche_option_conv bool_conv bool_niche

abbrev pub option_option_bool_conv :
    Conv
      (Option (Option Bool))
      (COptionSome (COptionSome CBool))
      (Option (Option (Unit {0})))
      (Option (Option (Unit {0})))
option_option_bool_conv = niche_option_conv option_bool_conv option_bool_niche

pub option_bool-IsNiche : IsNiche option_bool_conv option_bool_niche
unfolding niche_option_conv bool_conv bool_niche option_bool_niche
option_bool-IsNiche = record { niche_found = refl; encode_ne_niche = λ t e. ground arith }

pub option_option_bool-IsNiche : IsNiche option_option_bool_conv option_option_bool_niche
unfolding niche_option_conv bool_conv bool_niche option_bool_niche option_option_bool_niche
option_option_bool-IsNiche = record { niche_found = refl; encode_ne_niche = λ t e. ground arith }

-- The three levels of `Option` over `bool` share one byte: the conversion contract holds at each
-- level, and the bytes accepted are exactly those up to 2, 3 and 4.
pub nested_bool :
    (IsConv option_bool_conv × IsConv option_option_bool_conv)
    × IsConv (niche_option_conv option_option_bool_conv option_option_bool_niche)
    × ((c : COptionSome CBool) → option_bool_conv.is_valid c ≡ leb c.carrier.byte 2)
    × ((c : COptionSome (COptionSome CBool))
        → option_option_bool_conv.is_valid c ≡ leb c.carrier.carrier.byte 3)
    × ((c : COptionSome (COptionSome (COptionSome CBool)))
        → (niche_option_conv option_option_bool_conv option_option_bool_niche).is_valid c
          ≡ leb c.carrier.carrier.carrier.byte 4)
unfolding niche_option_conv bool_conv bool_niche option_bool_niche option_option_bool_niche
nested_bool =
    let one = niche_option-IsConv bool_conv bool_niche bool-IsConv bool-IsNiche in
    let two = niche_option-IsConv option_bool_conv option_bool_niche one option_bool-IsNiche in
    let three =
      niche_option-IsConv option_option_bool_conv option_option_bool_niche two
        option_option_bool-IsNiche in
    ((one, two), three, λ c. ground arith, λ c. ground arith, λ c. ground arith)
