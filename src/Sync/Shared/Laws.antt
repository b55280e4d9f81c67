-- ===== src/Sync/Shared/Laws.antt =====
-- What the stores of references leave behind.
use co.Prelude.{Bool, true, some, is_some, ◌≡◌, ◌↔◌, refl, arith}
use co.Store.{Store}
use co.Sync.Shared.{RefMutReference, reference_sync}

module _ {ω κ σ} {W : Type ω} {C : Type κ} {S : Type σ} (fields : Store W S)
    (eq : C → C → Bool) where
  -- The sync of a mutable reborrow always syncs the pointee, also where it is refused; it succeeds
  -- exactly if the pointee's sync does and the pointer is still the one that was encoded.
  pub reference_sync_unchanged :
      (reflexive : (c d : C) → (c ≡ d) ↔ (eq c d ≡ true)) (c d : C) (s : S) (w : W)
      → let self : RefMutReference C S = record { value = some c; original = some d; inner = s } in
        let (synced, w') = fields.sync s w in
        ((reference_sync fields eq self w).1 ≡ w')
        × ((is_some (reference_sync fields eq self w).0 ≡ true)
            ↔ ((c ≡ d) × (is_some synced ≡ true)))
  unfolding reference_sync
  reference_sync_unchanged reflexive c d s w = (refl, ground (arith, reflexive c d))
