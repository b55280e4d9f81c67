-- ===== src/Unchecked.antt =====
-- `DecodeMove::soft_decode_unchecked` of the composite conversions: src/option.rs, src/result.rs,
-- src/stored.rs, src/tuple.rs. `None` stands for undefined behaviour, such as `unwrap_unchecked` on
-- `None`.
pub mod Laws
use co.Prelude.{
  Bool, true, false, ◌&&◌, Option, none, some, map_some, Result, ok, err, if◌then◌else◌,
}
use co.Conv.{Conv, Niche}
use co.StableOption.{StableOption}
use co.StableResult.{StableResult}
use co.COption.{COption, COptionSome, into_option}
use co.CResult.{CResult, CResultOk, CResultErr, into_result}
use co.Compound.{Tuple2, Array, nil, cons}

abbrev pub Decoder {ℓ κ ν} : Type ℓ → Type κ → Type ν → Type (ℓ ⊔ κ ⊔ ν)
Decoder T C D = C → D → Option T × D

module _ {ℓ κ ν} {T : Type ℓ} {C : Type κ} {D : Type ν} (decode : Decoder T C D) (default : D) where
  unchecked_option_payload : Option (Option C) → Option D → Option (StableOption T) × Option D
  unchecked_option_payload none store = (none, store)
  unchecked_option_payload (some none) store = (some StableOption.none, none)
  unchecked_option_payload (some (some value)) store =
      let (t, inner) = decode value default in (map_some StableOption.some t, some inner)

  -- `soft_decode_unchecked` of `option::Option<T>`.
  unfoldable pub unchecked_stable_option : Decoder (StableOption T) (COption C) (Option D)
  unfolding unchecked_option_payload into_option
  unchecked_stable_option source store = unchecked_option_payload (into_option source) store

  -- `soft_decode_unchecked` of `Option<R>` by `COptionSome`.
  unfoldable pub unchecked_niche_option : Niche C → Decoder (Option T) (COptionSome C) (Option D)
  unchecked_niche_option n source store =
      if n.is_niche source.carrier
      then (some none, none)
      else (let (t, inner) = decode source.carrier default in (map_some some t, some inner))

  -- `soft_decode_unchecked` of `Result<R, E>` by `CResultOk`.
  unfoldable pub unchecked_result_ok {ℓ'} :
      {F : Type ℓ'} → Niche C → F → Decoder (Result T F) (CResultOk C) D
  unchecked_result_ok n f source store =
      if n.is_niche source.carrier
      then (some (err f), store)
      else (let (t, store') = decode source.carrier store in (map_some ok t, store'))

  -- `soft_decode_unchecked` of `Result<R, E>` by `CResultErr`.
  unfoldable pub unchecked_result_err {ℓ'} :
      {F : Type ℓ'} → Niche C → F → Decoder (Result F T) (CResultErr C) D
  unchecked_result_err n f source store =
      if n.is_niche source.carrier
      then (some (ok f), store)
      else (let (t, store') = decode source.carrier store in (map_some err t, store'))

unfoldable pub cons_defined {ℓ} :
    {T : Type ℓ} {n : co.Prelude.ℕ}
    → Option T
    → Option (Array T n)
    → Option (Array T (co.Prelude.suc n))
cons_defined (some t) (some ts) = some (cons t ts)
cons_defined _ _ = none

-- `decode_unchecked_array_elements`.
unfoldable pub unchecked_array {ℓ κ ν} :
    {T : Type ℓ} {C : Type κ} {D : Type ν} {n : co.Prelude.ℕ}
    → Decoder T C D
    → Decoder (Array T n) (Array C n) (Array D n)
unfolding cons_defined
unchecked_array decode nil nil = (some nil, nil)
unchecked_array decode (cons c cs) (cons d ds) =
    let (t, d') = decode c d in
    let (ts, ds') = unchecked_array decode cs ds in (cons_defined t ts, cons d' ds')

module _ {ℓ ℓ' κ κ' ν ν'} {T : Type ℓ} {F : Type ℓ'} {C : Type κ} {C' : Type κ'} {D : Type ν}
    {D' : Type ν'} (decode : Decoder T C D) (default : D) (decode' : Decoder F C' D')
    (default' : D') where
  unchecked_result_payload :
      Option (Result C C') → Option (Result D D') → Option (StableResult T F) × Option (Result D D')
  unchecked_result_payload none store = (none, store)
  unchecked_result_payload (some (ok value)) store =
      let (t, inner) = decode value default in (map_some StableResult.ok t, some (ok inner))
  unchecked_result_payload (some (err value)) store =
      let (f, inner) = decode' value default' in (map_some StableResult.err f, some (err inner))

  -- `soft_decode_unchecked` of `result::Result<T, E>`.
  unfoldable pub unchecked_stable_result :
      Decoder (StableResult T F) (CResult C C') (Option (Result D D'))
  unfolding unchecked_result_payload into_result
  unchecked_stable_result source store = unchecked_result_payload (into_result source) store

  pair_defined : Option T → Option F → Option (T × F)
  pair_defined (some t) (some f) = some (t, f)
  pair_defined _ _ = none

  -- `soft_decode_unchecked` of `(A, B)`.
  unfoldable pub unchecked_pair : Decoder (T × F) (Tuple2 C C') (D × D')
  unfolding pair_defined
  unchecked_pair source store =
      let (t, d) = decode source.first store.0 in
      let (f, d') = decode' source.second store.1 in (pair_defined t f, (d, d'))
