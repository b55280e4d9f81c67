-- ===== src/COption/Order.antt =====
-- The order and equality of the option carriers against those of the options that they encode.
use co.Prelude.{Bool, true, false, Option, none, some, ◌≡◌, ◌↔◌, refl, arith, ◌<◌}
use co.Conv.{Conv}
use co.Primitive.{Ordering, less, equal, greater}
use co.StableOption.{StableOption}
use co.COption.{COption, stable_option_conv, c_option_eq, c_option_cmp}

-- `#[derive(PartialOrd)]` of `option::Option`: by the order of the variants, then by the payload.
unfoldable pub stable_option_cmp {ℓ} :
    {T : Type ℓ} → (T → T → Option Ordering) → StableOption T → StableOption T → Option Ordering
stable_option_cmp cmp StableOption.none StableOption.none = some equal
stable_option_cmp cmp StableOption.none (StableOption.some b) = some less
stable_option_cmp cmp (StableOption.some a) StableOption.none = some greater
stable_option_cmp cmp (StableOption.some a) (StableOption.some b) = cmp a b

module _ {ℓ κ μ ν} {T : Type ℓ} {C : Type κ} {E : Type μ} {D : Type ν} (v : Conv T C E D) where
  -- Where encoding keeps the order of payloads, the carriers of options compare like the options.
  pub c_option_cmp-encode :
      (cmp : T → T → Option Ordering) (c_cmp : C → C → Option Ordering) (zeroed : C)
      → ((a b : T) (e e' : E) → c_cmp (v.soft_encode a e).0 (v.soft_encode b e').0 ≡ cmp a b)
      → (a b : StableOption T) (e e' : Option E)
      → let w = stable_option_conv v zeroed in
        c_option_cmp c_cmp (w.soft_encode a e).0 (w.soft_encode b e').0 ≡ stable_option_cmp cmp a b
  unfolding stable_option_conv c_option_cmp stable_option_cmp
  c_option_cmp-encode cmp c_cmp zeroed h StableOption.none StableOption.none e e' = refl
  c_option_cmp-encode cmp c_cmp zeroed h StableOption.none (StableOption.some b) e e' = refl
  c_option_cmp-encode cmp c_cmp zeroed h (StableOption.some a) StableOption.none e e' = refl
  c_option_cmp-encode cmp c_cmp zeroed h (StableOption.some a) (StableOption.some b) e e' =
      h a b v.encode_default v.encode_default

module _ {κ} {C : Type κ} (eq : C → C → Bool) (cmp : C → C → Option Ordering)
    (a b : COption C) where
  -- Equality of option carriers is what their order calls equal, if that is so for their payloads.
  pub c_option_eq_iff_cmp :
      ((eq a.payload b.payload ≡ true) ↔ (cmp a.payload b.payload ≡ some equal))
      → (c_option_eq eq a b ≡ true) ↔ (c_option_cmp cmp a b ≡ some equal)
  unfolding c_option_eq c_option_cmp
  c_option_eq_iff_cmp h = ground arith

  -- A carrier with a reserved tag, such as the niche, is unequal to and unordered with every carrier.
  pub c_option_reserved : 1 < a.tag → (c_option_eq eq a b ≡ false) × (c_option_cmp cmp a b ≡ none)
  unfolding c_option_eq c_option_cmp
  c_option_reserved h = ground arith
