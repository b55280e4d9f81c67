-- ===== src/MutRefs.antt =====
-- Mutable references to composite values, converted field by field: `DecodeMut` of src/decoded.rs for
-- Option and Result, over the write-back store of src/sync.rs. `W` is the state of the memory.
pub mod Laws
pub mod Edit
use co.Prelude.{Bool, true, false, Option, none, some, map_some, Result, ok, err}
use co.Conv.{Niche}
use co.Store.{Store, option_store, option_result_store}
use co.Sync.MutDecode.{MutDecode, mut_decode}
use co.COption.{COption, c_option_new, into_option, COptionSome}
use co.CResult.{CResult, c_result_new, into_result, CResultOk, CResultErr}
use co.Refs.{ok_of, err_of, ok_or_default, err_or_default}

-- A type whose mutable references are decoded through a store: its `EncodeMove`, whose store is empty,
-- and what decodes a carrier with the field stores; for a field that is `decode_mut_field`.
pub record MutConv {ω ρ κ σ} (W : Type ω) (R : Type ρ) (C : Type κ) (S : Type σ)
    : Type (ω ⊔ ρ ⊔ κ ⊔ σ) where
  pub encode_move : R → C
  pub decode_store : Store W S
  pub decode_fields : C → S → W → Option R × (S × W)

module _ {ω ρ κ σ π} {W : Type ω} {R : Type ρ} {C : Type κ} {S : Type σ} {P : Type π}
    (v : MutConv W R C S) (drop_value : R → W → W) (write : P → C → W → W) (read : P → W → C) where
  -- `decode_mut`; a null pointer is none.
  unfoldable pub decode_mut :
      Option P → MutDecode W R S P → W → Option (Unit {0}) × (MutDecode W R S P × W)
  unfolding mut_decode
  decode_mut none self w = (none, (self, w))
  decode_mut (some p) self w =
      mut_decode v.decode_store drop_value (λ r w'. (v.encode_move r, w')) write (some p)
        (λ fields w'. v.decode_fields (read p w') fields w') self w

module _ {ω ℓ κ σ} {W : Type ω} {T : Type ℓ} {C : Type κ} {D : Type σ} (v : MutConv W T C D) where
  -- `fields.insert(Default::default())`, and the field decoded with it; the earlier store is dropped.
  unfoldable pub insert_field : C → Option D → W → Option T × (Option D × W)
  unfolding option_store
  insert_field value fields w =
      let w1 = (option_store v.decode_store).drop fields w in
      let (t, (d, w2)) = v.decode_fields value v.decode_store.default w1 in (t, (some d, w2))

  option_mut_payload : Option (Option C) → Option D → W → Option (Option T) × (Option D × W)
  unfolding insert_field option_store
  option_mut_payload none fields w = (none, (fields, w))
  option_mut_payload (some none) fields w =
      (some none, (none, (option_store v.decode_store).drop fields w))
  option_mut_payload (some (some value)) fields w =
      let (t, rest) = insert_field value fields w in (map_some some t, rest)

  -- `DecodeMut for Option<T>` without a niche.
  unfoldable pub option_mut : C → MutConv W (Option T) (COption C) (Option D)
  unfolding option_mut_payload
  option_mut zeroed = record {
    encode_move = λ o. c_option_new zeroed (map_some v.encode_move o);
    decode_store = option_store v.decode_store;
    decode_fields = λ source fields w. option_mut_payload (into_option source) fields w;
  }

  -- A payload, or the niche where there is none.
  niche_payload : Niche C → Option T → C
  niche_payload n none = n.niche
  niche_payload n (some t) = v.encode_move t

  niche_mut_tested : Bool → C → Option D → W → Option (Option T) × (Option D × W)
  unfolding insert_field option_store
  niche_mut_tested true c field w = (some none, (none, (option_store v.decode_store).drop field w))
  niche_mut_tested false c field w =
      let (t, rest) = insert_field c field w in (map_some some t, rest)

  unfoldable pub niche_mut : Niche C → MutConv W (Option T) C (Option D)
  unfolding niche_payload niche_mut_tested
  niche_mut n = record {
    encode_move = niche_payload n;
    decode_store = option_store v.decode_store;
    decode_fields = λ c field w. niche_mut_tested (n.is_niche c) c field w;
  }

  -- `DecodeMut for Option<T>` through a niche.
  unfoldable pub niche_option_mut : Niche C → MutConv W (Option T) (COptionSome C) (Option D)
  unfolding niche_mut
  niche_option_mut n = record {
    encode_move = λ o. record { carrier = (niche_mut n).encode_move o };
    decode_store = (niche_mut n).decode_store;
    decode_fields = λ c field w. (niche_mut n).decode_fields c.carrier field w;
  }

  -- `DecodeMut for Result<T, E>` through the niche of its value; `absent` is `E::default()`.
  unfoldable pub result_ok_mut {φ} :
      {F : Type φ} → F → Niche C → MutConv W (Result T F) (CResultOk C) (Option D)
  unfolding niche_mut ok_of ok_or_default
  result_ok_mut absent n = record {
    encode_move = λ r. record { carrier = (niche_mut n).encode_move (ok_of r) };
    decode_store = (niche_mut n).decode_store;
    decode_fields = λ c field w.
        let (t, rest) = (niche_mut n).decode_fields c.carrier field w in
        (map_some (ok_or_default absent) t, rest);
  }

  -- The same through the niche of its error.
  unfoldable pub result_err_mut {φ} :
      {F : Type φ} → F → Niche C → MutConv W (Result F T) (CResultErr C) (Option D)
  unfolding niche_mut err_of err_or_default
  result_err_mut absent n = record {
    encode_move = λ r. record { carrier = (niche_mut n).encode_move (err_of r) };
    decode_store = (niche_mut n).decode_store;
    decode_fields = λ c field w.
        let (t, rest) = (niche_mut n).decode_fields c.carrier field w in
        (map_some (err_or_default absent) t, rest);
  }

module _ {ω ℓ κ σ φ δ ψ} {W : Type ω} {T : Type ℓ} {C : Type κ} {D : Type σ} {F : Type φ}
    {B : Type δ} {G : Type ψ} (v : MutConv W T C D) (u : MutConv W F B G) where
  encode_result : Result T F → Result C B
  encode_result (ok t) = ok (v.encode_move t)
  encode_result (err e) = err (u.encode_move e)

  -- `fields.insert(Ok(…))` or `fields.insert(Err(…))`, and the payload decoded with what it holds.
  result_mut_payload :
      Option (Result C B)
      → Option (Result D G)
      → W
      → Option (Result T F) × (Option (Result D G) × W)
  unfolding option_result_store
  result_mut_payload none fields w = (none, (fields, w))
  result_mut_payload (some (ok value)) fields w =
      let w1 = (option_result_store v.decode_store u.decode_store).drop fields w in
      let (t, (d, w2)) = v.decode_fields value v.decode_store.default w1 in
      (map_some ok t, (some (ok d), w2))
  result_mut_payload (some (err value)) fields w =
      let w1 = (option_result_store v.decode_store u.decode_store).drop fields w in
      let (e, (g, w2)) = u.decode_fields value u.decode_store.default w1 in
      (map_some err e, (some (err g), w2))

  -- `DecodeMut for Result<T, E>` without a niche.
  unfoldable pub result_mut : MutConv W (Result T F) (CResult C B) (Option (Result D G))
  unfolding encode_result result_mut_payload
  result_mut = record {
    encode_move = λ r. c_result_new (encode_result r);
    decode_store = option_result_store v.decode_store u.decode_store;
    decode_fields = λ source fields w. result_mut_payload (into_result source) fields w;
  }
