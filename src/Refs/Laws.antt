-- ===== src/Refs/Laws.antt =====
-- What is encoded by reference is what a decoder of the reference reads.
use co.Prelude.{true, false, Option, none, some, map_some, ◌≡◌, refl, ap}
use co.Conv.{Niche}
use co.Store.{option_store}
use co.COption.{COption, c_some, c_none, into_option}
use co.Refs.{
  RefConv, encode_inserted, decode_inserted, option_encode_ref, option_decode_ref, option_refs,
  niche_encode_ref, niche_decode_ref, niche_option_refs,
}

-- The contract of a conversion by reference, for a notion of an intact carrier: encoding leaves one,
-- decoding reads its value, and dropping an earlier decode store does not touch it.
pub record IsRefConv {ω ℓ κ μ ν} {W : Type ω} {T : Type ℓ} {C : Type κ} {E : Type μ} {D : Type ν}
    (v : RefConv W T C E D) (Intact : T → C → W → Type 0) : Type (ω ⊔ ℓ ⊔ κ ⊔ μ ⊔ ν) where
  pub encode_intact :
      (t : T) (e : E) (w : W) → Intact t (v.encode_ref_field t e w).0 (v.encode_ref_field t e w).1.1
  pub decode_intact :
      (t : T) (c : C) (d : D) (w : W) → Intact t c w → (v.decode_ref_field c d w).0 ≡ some t
  pub drop_intact :
      (t : T) (c : C) (d : D) (w : W) → Intact t c w → Intact t c (v.decode_store.drop d w)

-- The carrier of an option is intact: it says that there is none, or has an intact payload.
abbrev pub IntactOption {ω ℓ} :
    {W : Type ω} {T : Type ℓ} {C : Type 0} (Intact : T → C → W → Type 0)
    → Option T
    → COption C
    → W
    → Type 0
IntactOption Intact none c w = into_option c ≡ some none
IntactOption {C = C} Intact (some t) c w = (x : C) × (into_option c ≡ some (some x)) × Intact t x w

-- The same through a niche.
abbrev pub IntactNiche {ω ℓ} :
    {W : Type ω} {T : Type ℓ} {C : Type 0} (Intact : T → C → W → Type 0) (n : Niche C)
    → Option T
    → C
    → W
    → Type 0
IntactNiche Intact n none c w = n.is_niche c ≡ true
IntactNiche Intact n (some t) c w = Intact t c w

module _ {ω ℓ μ ν} {W : Type ω} {T : Type ℓ} {C : Type 0} {E : Type μ} {D : Type ν}
    (v : RefConv W T C E D) (Intact : T → C → W → Type 0) (law : IsRefConv v Intact) where
  option_drop-Intact :
      (t : T) (c : C) (store : Option D) (w : W) (whole : Intact t c w)
      → Intact t c ((option_store v.decode_store).drop store w)
  unfolding option_store
  option_drop-Intact t c none w whole = whole
  option_drop-Intact t c (some d) w whole = law.drop_intact t c d w whole

  decode_inserted_lem :
      (t : T) (c : C) (store : Option D) (w : W) (whole : Intact t c w)
      → (decode_inserted v c store w).0 ≡ some t
  unfolding decode_inserted
  decode_inserted_lem t c store w whole =
      law.decode_intact t c v.decode_store.default ((option_store v.decode_store).drop store w)
        (option_drop-Intact t c store w whole)

  encode_inserted_lem :
      (t : T) (store : Option E) (w : W)
      → Intact t (encode_inserted v t store w).0 (encode_inserted v t store w).1.1
  unfolding encode_inserted
  encode_inserted_lem t store w =
      law.encode_intact t v.encode_store.default ((option_store v.encode_store).drop store w)

  option_encode-Intact :
      (zeroed : C) (t : Option T) (store : Option E) (w : W)
      → IntactOption Intact t
          (option_encode_ref v zeroed t store w).0
          (option_encode_ref v zeroed t store w).1.1
  unfolding option_encode_ref into_option c_some c_none
  option_encode-Intact zeroed none store w = refl
  option_encode-Intact zeroed (some t) store w =
      ((encode_inserted v t store w).0, refl, encode_inserted_lem t store w)

  option_decode-Intact :
      (t : Option T) (c : COption C) (store : Option D) (w : W) (whole : IntactOption Intact t c w)
      → (option_decode_ref v c store w).0 ≡ some t
  unfolding option_decode_ref
  option_decode-Intact none c store w whole = rw (whole) refl
  option_decode-Intact (some t) c store w (x, payload, whole) =
      rw (payload) (ap (map_some some) (decode_inserted_lem t x store w whole))

  option_whole :
      (t : Option T) (c : COption C) (store : Option D) (w : W) (whole : IntactOption Intact t c w)
      → IntactOption Intact t c ((option_store v.decode_store).drop store w)
  option_whole none c store w whole = whole
  option_whole (some t) c store w (x, payload, whole) =
      (x, payload, option_drop-Intact t x store w whole)

  -- Where the payload keeps the contract of references, so does the Option with a tag.
  pub option_refs-IsRefConv : (zeroed : C) → IsRefConv (option_refs v zeroed) (IntactOption Intact)
  unfolding option_refs
  option_refs-IsRefConv zeroed = record {
    encode_intact = option_encode-Intact zeroed;
    decode_intact = option_decode-Intact;
    drop_intact = option_whole;
  }

  module _ (n : Niche C) (found : n.is_niche n.niche ≡ true)
      (free : (t : T) (c : C) (w : W) → Intact t c w → n.is_niche c ≡ false) where
    pub niche_encode-Intact :
        (t : Option T) (store : Option E) (w : W)
        → IntactNiche Intact n t
            (niche_encode_ref v n t store w).0
            (niche_encode_ref v n t store w).1.1
    unfolding niche_encode_ref
    niche_encode-Intact none store w = found
    niche_encode-Intact (some t) store w = encode_inserted_lem t store w

    pub niche_decode-Intact :
        (t : Option T) (c : C) (store : Option D) (w : W) (whole : IntactNiche Intact n t c w)
        → (niche_decode_ref v n c store w).0 ≡ some t
    unfolding niche_decode_ref
    niche_decode-Intact none c store w whole = rw (whole) refl
    niche_decode-Intact (some t) c store w whole =
        rw (free t c w whole) (ap (map_some some) (decode_inserted_lem t c store w whole))

    pub niche_whole :
        (t : Option T) (c : C) (store : Option D) (w : W) (whole : IntactNiche Intact n t c w)
        → IntactNiche Intact n t c ((option_store v.decode_store).drop store w)
    niche_whole none c store w whole = whole
    niche_whole (some t) c store w whole = option_drop-Intact t c store w whole

    -- Where the payload keeps the contract of references and has a niche that no intact carrier is, so
    -- does the Option through the niche.
    pub niche_option_refs-IsRefConv :
        IsRefConv (niche_option_refs v n) (λ t c w. IntactNiche Intact n t c.carrier w)
    unfolding niche_option_refs
    niche_option_refs-IsRefConv = record {
      encode_intact = niche_encode-Intact;
      decode_intact = λ t c store w whole. niche_decode-Intact t c.carrier store w whole;
      drop_intact = λ t c store w whole. niche_whole t c.carrier store w whole;
    }
