-- ===== src/Store/Laws.antt =====
-- What syncing a composite store does to the stores in it.
use co.Prelude.{Bool, true, false, none, some, is_some, List, [], ◌∷◌, ◌≡◌, refl, arith, ◌&&◌}
use co.Store.{Store, sync_loop, slice_sync, slice_store, unit_store, pair_sync, then_some}

-- The default store has nothing to drop and nothing to write back.
pub record IsStore {ω σ} {W : Type ω} {S : Type σ} (store : Store W S) : Type (ω ⊔ σ) where
  pub drop_default : (w : W) → store.drop store.default w ≡ w

module _ {ω σ} {W : Type ω} {S : Type σ} (store : Store W S) where
  -- The memory after every store has been synced once, in order, and whether all succeeded.
  unfoldable pub sync_each : List S → W → W
  sync_each [] w = w
  sync_each (s ∷ ss) w = sync_each ss (store.sync s w).1

  unfoldable pub each_succeeds : List S → W → Bool
  each_succeeds [] w = true
  each_succeeds (s ∷ ss) w = is_some (store.sync s w).0 && each_succeeds ss (store.sync s w).1

  sync_loop-each :
      (valid : Bool) (ss : List S) (w : W)
      → sync_loop store valid ss w ≡ (valid && each_succeeds ss w, sync_each ss w)
  unfolding sync_loop sync_each each_succeeds
  sync_loop-each valid [] w = ground arith
  sync_loop-each valid (s ∷ ss) w = ground (
    arith,
    sync_loop-each valid ss (store.sync s w).1,
    sync_loop-each false ss (store.sync s w).1,
  )

  -- Syncing a slice or an array syncs each element once, in order, also behind a failure, and
  -- succeeds exactly if every element does.
  pub slice_sync-each :
      (ss : List S) (w : W)
      → slice_sync store ss w ≡ (then_some (each_succeeds ss w), sync_each ss w)
  unfolding slice_sync
  slice_sync-each ss w = rw (sync_loop-each true ss w)

module _ {ω σ τ} {W : Type ω} {A : Type σ} {B : Type τ} (a : Store W A) (b : Store W B) where
  -- A pair of stores succeeds exactly if both succeed in turn. Where the first fails the second is
  -- dropped without being synced.
  pub pair_sync_cases :
      (s : A) (t : B) (w : W)
      → (is_some (pair_sync a b (s, t) w).0
          ≡ (is_some (a.sync s w).0 && is_some (b.sync t (a.sync s w).1).0))
        × ((pair_sync a b (s, t) w).1 ≡ (elim (a.sync s w).0 [
          | some _ ↦ (b.sync t (a.sync s w).1).1
          | none ↦ b.drop t (a.sync s w).1
        ]))
  unfolding pair_sync
  pair_sync_cases s t w = ground arith

unit-IsStore {ω} : {W : Type ω} → IsStore (unit_store {W = W})
unfolding unit_store
unit-IsStore = record { drop_default = λ w. refl }

slice-IsStore {ω σ} : {W : Type ω} {S : Type σ} (store : Store W S) → IsStore (slice_store store)
unfolding slice_store
slice-IsStore store = record { drop_default = λ w. refl }
