-- ===== src/CResult/StaleStore.antt =====
-- What a store that is used twice holds after the second encoding of a `Result`.
use co.Prelude.{Option, some, ok, err, ◌≡◌, refl}
use co.Conv.{Conv, Niche}
use co.Store.{Store, option_store}
use co.CResult.{result_ok_encode, result_ok_encode_unchecked}

module _ {ω ℓ ℓ' κ μ ν} {W : Type ω} {T : Type ℓ} {F : Type ℓ'} {C : Type κ} {E : Type μ}
    {D : Type ν} (store : Store W E) (v : Conv T C E D) (n : Niche C) (default : F) where
  -- An `Ok` and then an `Err` encoded through the niche into one store: syncing the store still syncs
  -- what the `Ok` left. The unchecked encoding of the same values leaves nothing to sync.
  pub result_ok_encode_stale :
      (t : T) (f : F) (e : Option E) (w : W)
      → let first = (result_ok_encode v n default (ok t) e).1 in
        let second = (result_ok_encode v n default (err f) first).1 in
        let unchecked = (result_ok_encode_unchecked v n default (err f) first).1 in
        ((option_store store).sync second w ≡ store.sync (v.soft_encode t v.encode_default).1 w)
        × ((option_store store).sync unchecked w ≡ (some tt, w))
  unfolding result_ok_encode result_ok_encode_unchecked option_store
  result_ok_encode_stale t f e w = (refl, refl)
